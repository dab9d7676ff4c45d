-- ===== src/Elf/Symbol/Fields.antt =====
-- The packed fields of a symbol record of ganymede-elf/src/symbol.rs.
use ganymede.Common.{
  ℕ, ◌+◌, ◌*◌, ◌/◌, ◌%◌, ◌<◌, ◌≡◌, refl, true, ◌==◌, bit_and, arith, if_split, all_below,
  all_below→true,
}
use ganymede.Elf.Symbol.{
  ElfSymbolBinding, local, global, weak, gnu_unique, other_binding, ElfSymbolType, no_type, object,
  function, section, source_file, common, thread_local, gnu_indirect_function, other_type,
  ElfSymbolVisibility, default, internal, hidden, protected, other_visibility, binding_of, type_of,
  visibility_of,
}

abbrev pub binding_code : ElfSymbolBinding → ℕ
binding_code local = 0
binding_code global = 1
binding_code weak = 2
binding_code gnu_unique = 10
binding_code (other_binding n) = n

abbrev pub type_code : ElfSymbolType → ℕ
type_code no_type = 0
type_code object = 1
type_code function = 2
type_code section = 3
type_code source_file = 4
type_code common = 5
type_code thread_local = 6
type_code gnu_indirect_function = 10
type_code (other_type n) = n

abbrev pub visibility_code : ElfSymbolVisibility → ℕ
visibility_code default = 0
visibility_code internal = 1
visibility_code hidden = 2
visibility_code protected = 3
visibility_code (other_visibility n) = n

low_four : all_below 256 (λ n. bit_and n 15 == n % 16) ≡ true
low_four = refl

low_two : all_below 256 (λ n. bit_and n 3 == n % 4) ≡ true
low_two = refl

is : (n k : ℕ) → (n == k) ≡ true → k ≡ n
is n k e = ground (arith, e)

binding_of-code : (information : ℕ) → binding_code (binding_of information) ≡ information / 16
unfolding binding_of
binding_of-code information =
    let Coded : ElfSymbolBinding → Type 0 = λ b. binding_code b ≡ information / 16 in
    if_split Coded (information / 16 == 0) (is _ 0) λ _.
      if_split Coded (information / 16 == 1) (is _ 1) λ _.
        if_split Coded (information / 16 == 2) (is _ 2)
          λ _. if_split Coded (information / 16 == 10) (is _ 10) λ _. refl

type_of-code : (information : ℕ) → type_code (type_of information) ≡ bit_and information 15
unfolding type_of
type_of-code information =
    let t = bit_and information 15 in
    let Coded : ElfSymbolType → Type 0 = λ b. type_code b ≡ bit_and information 15 in
    if_split Coded (t == 0) (is t 0) λ _. if_split Coded (t == 1) (is t 1) λ _.
      if_split Coded (t == 2) (is t 2) λ _. if_split Coded (t == 3) (is t 3) λ _.
        if_split Coded (t == 4) (is t 4) λ _.
          if_split Coded (t == 5) (is t 5)
            λ _. if_split Coded (t == 6) (is t 6) λ _. if_split Coded (t == 10) (is t 10) λ _. refl

visibility_of-code : (other : ℕ) → visibility_code (visibility_of other) ≡ bit_and other 3
unfolding visibility_of
visibility_of-code other =
    let v = bit_and other 3 in
    let Coded : ElfSymbolVisibility → Type 0 = λ b. visibility_code b ≡ bit_and other 3 in
    if_split Coded (v == 0) (is v 0) λ _.
      if_split Coded (v == 1) (is v 1)
        λ _. if_split Coded (v == 2) (is v 2) λ _. if_split Coded (v == 3) (is v 3) λ _. refl

-- The binding and the type together keep the whole byte of `st_info`, unknown values included, and the
-- visibility the low two bits of `st_other`.
pub fields-code :
    (information other : ℕ)
    → information < 256
    → other < 256
    → (binding_code (binding_of information) * 16 + type_code (type_of information) ≡ information)
      × (visibility_code (visibility_of other) ≡ other % 4)
fields-code information other small byte =
    let low = all_below→true 256 (λ n. bit_and n 15 == n % 16) information low_four small in
    let two = all_below→true 256 (λ n. bit_and n 3 == n % 4) other low_two byte in
    (
      ground (arith, binding_of-code information, type_of-code information, low),
      ground (arith, visibility_of-code other, two),
    )
