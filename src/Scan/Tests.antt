-- ===== src/Scan/Tests.antt =====
-- Concrete memories for ganymede-scan/src/lib.rs, run through its operations.
use ganymede.Common.{ℕ, ◌-◌, ◌≡◌, refl, List, [], ◌∷◌, some, arith}
use ganymede.Common.Result.{ok}
use ganymede.Common.Sort.{sort, insert}
use ganymede.Process.Snapshot.{Range}
use ganymede.Scan.Foreign.{assemble_bytes, assemble_c_bytes, loop, bytes_round, c_round, copy_at}
use ganymede.Scan.Assembly.{BytesRead, assemble_bytes-BytesRead}
use ganymede.Scan.Scanner.{
  bytes, scan_ranges, scan_range, scan_loop, scan_round, copy_bytes, address_at, push_offsets,
}
use ganymede.Scan.Report.{Reported, bytes-Reported}
use ganymede.Scan.Naive.{naive, by_three, by_three-Faithful, process_over, range_size}

abbrev descending : ℕ → ℕ
descending k = 10 - k

abbrev text : List ℕ
text = 1 ∷ 2 ∷ 1 ∷ 2 ∷ 3 ∷ 1 ∷ 2 ∷ 0 ∷ []

abbrev needle : List ℕ
needle = 1 ∷ 2 ∷ []

abbrev ranges : List Range
ranges =
    record { start_address = 0; end_address = 8 }
    ∷ record { start_address = 4; end_address = 7 }
    ∷ []

test-assemble : assemble_bytes (by_three descending) 4 ≡ some (ok (10 ∷ 9 ∷ 8 ∷ 7 ∷ []))
unfolding assemble_bytes loop bytes_round copy_at
test-assemble = refl

test-string :
    assemble_c_bytes (by_three descending) 12
    ≡ some (ok (10 ∷ 9 ∷ 8 ∷ 7 ∷ 6 ∷ 5 ∷ 4 ∷ 3 ∷ 2 ∷ 1 ∷ 0 ∷ []))
unfolding assemble_c_bytes loop c_round copy_at
test-string = refl

test-bytes : bytes naive range_size (process_over text) 4 ranges needle ≡ some (ok (0 ∷ 2 ∷ 5 ∷ []))
unfolding bytes scan_ranges scan_range scan_loop scan_round copy_bytes address_at push_offsets
    assemble_bytes loop bytes_round copy_at sort insert
test-bytes = refl

bytes-Reported_example :
    Reported naive range_size
      (process_over text)
      needle
      4
      ranges
      (bytes naive range_size (process_over text) 4 ranges needle)
bytes-Reported_example =
    bytes-Reported naive range_size (process_over text) needle 4 ranges refl (omega arith)

assemble_bytes-BytesRead_example :
    BytesRead (by_three descending) descending 4 (assemble_bytes (by_three descending) 4)
assemble_bytes-BytesRead_example =
    assemble_bytes-BytesRead (by_three descending) descending 4 (by_three-Faithful descending)
      (omega arith)

-- Where the needle overlaps itself the addresses depend on the copy size.
test-overlap_six :
    bytes naive range_size
      (process_over (7 ∷ 7 ∷ 7 ∷ 7 ∷ 7 ∷ 7 ∷ []))
      6
      (record { start_address = 0; end_address = 6 } ∷ [])
      (7 ∷ 7 ∷ [])
    ≡ some (ok (0 ∷ 2 ∷ 4 ∷ []))
unfolding bytes scan_ranges scan_range scan_loop scan_round copy_bytes address_at push_offsets
    assemble_bytes loop bytes_round copy_at sort insert
test-overlap_six = refl

test-overlap_four :
    bytes naive range_size
      (process_over (7 ∷ 7 ∷ 7 ∷ 7 ∷ 7 ∷ 7 ∷ []))
      4
      (record { start_address = 0; end_address = 6 } ∷ [])
      (7 ∷ 7 ∷ [])
    ≡ some (ok (0 ∷ 2 ∷ 3 ∷ []))
unfolding bytes scan_ranges scan_range scan_loop scan_round copy_bytes address_at push_offsets
    assemble_bytes loop bytes_round copy_at sort insert
test-overlap_four = refl
