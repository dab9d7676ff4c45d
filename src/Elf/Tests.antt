-- ===== src/Elf/Tests.antt =====
-- Concrete tables, symbols and notes for ganymede-elf.
use ganymede.Common.{
  ℕ, zero, suc, ◌+◌, ◌*◌, ◌/◌, ◌%◌, ◌≡◌, ◌↔◌, refl, List, [], ◌∷◌, ◌++◌, none, some, ◌==◌,
  if◌then◌else◌, arith,
}
use mathlib.Core.Option
use ganymede.Common.Result.{Result, ok, err, try_then}
use ganymede.Elf.{elf32, elf64, Binding, address, range}
use ganymede.Elf.Loaded.{
  ProgramHeader, executable, executables, contains_load, resolve_pointer, load_bytes, dynamic_from,
  dynamic_range,
}
use ganymede.Elf.Loaded.Segments.{Table, executables-Table}
use ganymede.Elf.Loaded.Pointers.{
  Resolved, resolve_pointer-Resolved, Extent, load_bytes-Extent, dynamics, IsTable,
  dynamic_range-IsTable,
}
use ganymede.Elf.Symbol.{
  Symbol, binding_of, type_of, visibility_of, externally_visible, location, export,
}
use ganymede.Elf.Symbol.Fields.{binding_code, type_code, visibility_code, fields-code}
use ganymede.Elf.Symbol.Exports.{Promoted, export-Promoted}
use ganymede.Elf.Note.{
  ambiguous, yielded, ended, aligned, word, field, judge, record_at, next_note, segment_id,
}
use ganymede.Elf.Note.Records.{Advances, next_note-Advances}
use ganymede.Elf.Note.Segment.{Extracted, segment_id-Extracted}
use ganymede.Elf.Note.Encoding.{encode, record_at-encode}
use ganymede.Elf.Dynamic.{
  DynamicSymbolsError, Memory, Tables, GnuTable, SysvTable, DynamicSymbol, symbol_at, chain_word,
  chain_step, chain_loop, chain, gnu_hash, sysv_hash, sysv_step, sysv_walk, read_error,
}
use ganymede.Elf.Dynamic.Links.{Hashed, chain_word-lt}
use ganymede.Elf.Dynamic.Chain.{Walked, chain-Walked}
use ganymede.Elf.Dynamic.Sysv
use ganymede.Elf.Dynamic.Sysv.{sysv_walk-Walked}

abbrev binding : Binding
binding = record {
  at_phent = 4;
  program_header_size = λ c. 56;
  pt_load = 1;
  pt_note = 4;
  pt_dynamic = 2;
  pf_x = 1;
  shn_undef = 0;
  shn_common = 65522;
  shn_xindex = 65535;
  shn_abs = 65521;
}

abbrev header : ℕ → ℕ → ℕ → ℕ → ℕ → ProgramHeader
header kind flags at file memory = record {
  kind = kind;
  flags = flags;
  virtual_address = at;
  file = file;
  memory = memory;
}

abbrev headers : List ProgramHeader
headers = header 1 4 0 100 100 ∷ header 1 5 4096 64 128 ∷ header 2 6 4160 32 32 ∷ []

test-executables :
    executables binding elf64 8192 0 headers
    ≡ ok (record { start_address = 12288; end_address = 12352 } ∷ [])
unfolding executables executable range Option.bind
test-executables = refl

test-overflow : address elf32 4294967295 1 ≡ none
unfolding address
test-overflow = refl

test-absolute : resolve_pointer binding elf64 8192 headers 8200 ≡ some 8200
unfolding resolve_pointer contains_load range Option.bind
test-absolute = refl

test-relative : resolve_pointer binding elf64 8192 headers 4200 ≡ some 12392
unfolding resolve_pointer contains_load range Option.bind address
test-relative = refl

test-load_bytes : load_bytes binding elf64 8192 headers 12392 ≡ some 24
unfolding load_bytes range Option.bind
test-load_bytes = refl

test-dynamic :
    dynamic_range binding elf64 8192 headers
    ≡ some (record { start_address = 12352; end_address = 12384 })
unfolding dynamic_range dynamic_from range Option.bind
test-dynamic = refl

executables-Table_example :
    Table binding elf64 8192 0 headers (executables binding elf64 8192 0 headers)
executables-Table_example = executables-Table binding elf64 8192 0 headers

resolve_pointer-Resolved_example :
    Resolved binding elf64 8192 headers 4200 (resolve_pointer binding elf64 8192 headers 4200)
resolve_pointer-Resolved_example = resolve_pointer-Resolved binding elf64 8192 headers 4200

load_bytes-Extent_example :
    Extent binding elf64 8192 headers 12392 (load_bytes binding elf64 8192 headers 12392)
load_bytes-Extent_example = load_bytes-Extent binding elf64 8192 headers 12392

dynamic_range-IsTable_example :
    (dynamic_range binding elf64 8192 headers
      ≡ some (record { start_address = 12352; end_address = 12384 }))
    ↔ ((h : ProgramHeader) × (dynamics binding elf64 8192 headers ≡ h ∷ [])
        × IsTable binding elf64 8192 h (record { start_address = 12352; end_address = 12384 }))
dynamic_range-IsTable_example =
    dynamic_range-IsTable binding elf64 8192 headers
      (record { start_address = 12352; end_address = 12384 })

abbrev sample : ℕ → Symbol
sample information = record {
  name_offset = 0;
  information = information;
  visibility = 0;
  section_index = 1;
  value = 288;
  size = 0;
}

test-export : export binding elf32 4096 (sample 18) ≡ ok (some 4384)
unfolding export location externally_visible binding_of visibility_of type_of address
test-export = refl

test-indirect : export binding elf32 4096 (sample 26) ≡ ok none
unfolding export location externally_visible binding_of visibility_of type_of address
test-indirect = refl

fields-code_example :
    (binding_code (binding_of 26) * 16 + type_code (type_of 26) ≡ 26)
    × (visibility_code (visibility_of 7) ≡ 7 % 4)
fields-code_example = fields-code 26 7 (omega arith) (omega arith)

export-Promoted_example :
    Promoted binding elf32 4096 (sample 18) (export binding elf32 4096 (sample 18))
export-Promoted_example = export-Promoted binding elf32 4096 (sample 18)

abbrev note : List ℕ
note = encode 3 (71 ∷ 78 ∷ 85 ∷ 0 ∷ []) (1 ∷ 2 ∷ 3 ∷ 4 ∷ [])

test-note : next_note note 21 0 ≡ yielded (1 ∷ 2 ∷ 3 ∷ 4 ∷ []) 20
unfolding next_note record_at word field aligned
test-note = refl

test-end : next_note note 21 20 ≡ ended
unfolding next_note
test-end = refl

next_note-Advances_example : Advances note 0 (next_note note 21 0)
next_note-Advances_example = next_note-Advances note 21 0 (omega arith) (omega arith)

test-one : segment_id note 2 none 0 ≡ some (ok (some (1 ∷ 2 ∷ 3 ∷ 4 ∷ [])))
unfolding segment_id next_note record_at word field aligned
test-one = refl

test-two : segment_id (note ++ note) 2 none 0 ≡ some (err ambiguous)
unfolding segment_id next_note record_at word field aligned
test-two = refl

segment_id-Extracted_example : Extracted (note ++ note) none 0 (segment_id (note ++ note) 2 none 0)
segment_id-Extracted_example =
    segment_id-Extracted (note ++ note) none 2 0 (omega arith) (omega arith)

record_at-encode_example :
    record_at ([] ++ (note ++ [])) 0
    ≡ try_then (judge 3 (71 ∷ 78 ∷ 85 ∷ 0 ∷ []) (1 ∷ 2 ∷ 3 ∷ 4 ∷ [])) λ result. ok (result, 0 + 20)
record_at-encode_example =
    record_at-encode [] [] (71 ∷ 78 ∷ 85 ∷ 0 ∷ []) (1 ∷ 2 ∷ 3 ∷ 4 ∷ []) 3 (omega arith)
      (omega arith) (omega arith) (omega arith)

-- The chains of two tables over the symbols 1 and 2, whose names are their numbers.
abbrev words : ℕ → Result DynamicSymbolsError ℕ
words a =
    if a == 120
    then ok 1
    else if a == 116
    then ok 0
    else if a == 540
    then ok 177574
    else if a == 544
    then ok 177575
    else err (read_error a)

abbrev memory : Memory
memory = record {
  read_u32 = words;
  read_word = words;
  lift_symbol = λ a. ok (record {
    name_offset = a / 24;
    information = 18;
    visibility = 0;
    section_index = 1;
    value = 0;
    size = 0;
  });
  name_bytes = λ a n. ok (a ∷ []);
}

abbrev tables : Tables
tables = record {
  symbol_table = 0;
  symbol_capacity = 3;
  string_table = 0;
  string_size = 9;
  symbol_stride = 24;
}

abbrev sysv_table : SysvTable
sysv_table = record { address = 100; buckets = 1; symbols = 3 }

abbrev gnu_table : GnuTable
gnu_table = record {
  address = 500;
  buckets = 1;
  symbol_offset = 1;
  bloom_words = 1;
  bloom_shift = 0;
  chain_words = 2;
}

abbrev entry : ℕ → DynamicSymbol
entry i = record {
  index = i;
  symbol = record {
    name_offset = i;
    information = 18;
    visibility = 0;
    section_index = 1;
    value = 0;
    size = 0;
  };
  name = i ∷ [];
}

test-sysv_hash : sysv_hash (112 ∷ 114 ∷ 105 ∷ 110 ∷ 116 ∷ 102 ∷ []) ≡ 125371814
unfolding sysv_step
test-sysv_hash = refl

test-gnu_hash : gnu_hash (112 ∷ 114 ∷ 105 ∷ 110 ∷ 116 ∷ 102 ∷ []) ≡ 359345080
unfolding gnu_hash
test-gnu_hash = refl

test-sysv : sysv_walk memory tables sysv_table (1 ∷ []) 3 2 ≡ ok (some (entry 1))
unfolding sysv_walk symbol_at
test-sysv = refl

test-chain :
    chain memory tables gnu_table (2 ∷ []) (gnu_hash (2 ∷ [])) (record { symbol = 1; chains = 40 })
    ≡ some (ok (some (entry 2)))
unfolding chain chain_loop chain_step chain_word symbol_at gnu_hash
test-chain = refl

test-missing :
    chain memory tables gnu_table (3 ∷ []) (gnu_hash (3 ∷ [])) (record { symbol = 1; chains = 40 })
    ≡ some (ok none)
unfolding chain chain_loop chain_step chain_word symbol_at gnu_hash
test-missing = refl

hashed : Hashed memory tables gnu_table 40 (2 ∷ [])
unfolding chain_word symbol_at gnu_hash
hashed zero word s h at = cc
hashed (suc zero) word s h at =
    let w : word ≡ 177574 = cc in let e : s ≡ entry 1 = cc in rw (w, e) refl
hashed (suc (suc zero)) word s h at =
    let w : word ≡ 177575 = cc in let e : s ≡ entry 2 = cc in rw (w, e) refl
hashed (suc (suc (suc n))) word s h at =
    absurd
      (omega (arith, chain_word-lt memory tables gnu_table 40 (2 ∷ []) (suc (suc (suc n))) word h))

chain-Walked_example : Walked memory tables gnu_table 40 (2 ∷ []) 1 (
    chain memory tables gnu_table (2 ∷ []) (gnu_hash (2 ∷ [])) (record { symbol = 1; chains = 40 }))
chain-Walked_example =
    chain-Walked memory tables gnu_table 40 (2 ∷ []) (record { symbol = 1; chains = 40 }) refl
      hashed (omega arith)

sysv_walk-Walked_example :
    Sysv.Walked memory tables sysv_table
      (1 ∷ [])
      3
      2
      (sysv_walk memory tables sysv_table (1 ∷ []) 3 2)
sysv_walk-Walked_example = sysv_walk-Walked memory tables sysv_table (1 ∷ []) 3 2
