-- ===== src/Pattern/Search/First.antt =====
-- `Scanner::find_from` of ganymede-pattern-core/src/pattern/scan.rs for a pattern with no fixed
-- projection, by its exact prefix.
use ganymede.Common.{ℕ, ◌+◌, ◌-◌, ◌≤◌, ◌<◌, ◌≡◌, [], ◌∷◌, true, length, word_mod, arith, All}
use ganymede.Pattern.Read.{Bytes}
use ganymede.Pattern.Exec.{Context}
use ganymede.Pattern.FixedScan.{Memchr, occurs_at}
use ganymede.Pattern.FixedScan.Occurs.{occurs_at-le}
use ganymede.Pattern.Vector.{Simd}
use ganymede.Pattern.Search.{prefix, find_filtered}
use ganymede.Pattern.Search.Filter.{
  direct, EndsFirst, brute_loop-EndsFirst, byte_loop-EndsFirst, prefix_search-EndsFirst,
}
use ganymede.Pattern.Search.Prefix.{IsByte, AtomFits, direct-prefix}

module _ (lib : Memchr) (simd : Simd) (c : Context) (image : All IsByte c.haystack)
    (fit : All AtomFits c.atoms) (short : length c.haystack < word_mod) where
  find_filtered-EndsFirst :
      (needle : Bytes) (start end : ℕ)
      → ((i : ℕ) → direct c i ≡ true → occurs_at c.haystack needle i ≡ true)
      → start ≤ end
      → end ≤ length c.haystack
      → EndsFirst (direct c) start end (find_filtered lib simd c needle start end [])
  unfolding find_filtered occurs_at
  find_filtered-EndsFirst [] start end need h k =
      let span : start + (end - start) ≡ end = omega arith in
      rw span at (brute_loop-EndsFirst c (end - start) start)
  find_filtered-EndsFirst (b ∷ []) start end need h k =
      byte_loop-EndsFirst lib c end short k b (λ i u hit. ground (arith, need i hit)) (end - start)
        start h (omega arith)
  find_filtered-EndsFirst (b ∷ b' ∷ needle) start end need h k =
      prefix_search-EndsFirst lib c end short k (b ∷ b' ∷ needle) _ (ground arith) (ground arith)
        (λ i u hit.
          ground (arith, need i hit, occurs_at-le c.haystack (b ∷ b' ∷ needle) i (need i hit)))
        (end - start) start h (omega arith)

  pub find_prefix-EndsFirst :
      (start end : ℕ)
      → start ≤ end
      → end ≤ length c.haystack
      → EndsFirst (direct c) start end (find_filtered lib simd c (prefix c.atoms) start end [])
  find_prefix-EndsFirst start end h k =
      find_filtered-EndsFirst (prefix c.atoms) start end
        (λ i hit. (direct-prefix c image i fit hit).1) h k
