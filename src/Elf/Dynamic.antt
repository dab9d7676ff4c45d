-- ===== src/Elf/Dynamic.antt =====
-- ganymede-elf/src/dynamic.rs: the hash tables of dynamic symbols and their lookups. Reads of words and
-- records through the process are the fields of `Memory`; so is the name of a symbol, whose copying
-- `name_bytes` is not modelled. Of an error of these only a number is kept.
pub mod Links
pub mod Chain
pub mod Sysv
use ganymede.Common.{
  ℕ, zero, suc, ◌+◌, ◌-◌, ◌*◌, ◌/◌, ◌%◌, ◌^◌, min, List, [], ◌∷◌, Option, none, some, Bool, true,
  false, not, ◌&&◌, ltb, leb, ◌==◌, if◌then◌else◌, bit_and, bit_xor, bit_or, checked_add,
  checked_sub, checked_mul,
}
use mathlib.Core.Option
use ganymede.Common.Result.{Result, ok, err, try_then, ok_or}
use ganymede.Text.{bytes_eq}
use ganymede.Scan.Foreign.{Run}
use ganymede.Elf.{ElfClass, elf32, elf64, bits}
use ganymede.Elf.Symbol.{Symbol}

-- `sysv_hash`
unfoldable pub sysv_step : ℕ → ℕ → ℕ
sysv_step hash byte =
    let shifted = (hash * 16 % 2 ^ 32 + byte) % 2 ^ 32 in
    let high = bit_and shifted 4026531840 in
    bit_and (bit_xor shifted (high / 2 ^ 24)) (2 ^ 32 - 1 - high)

abbrev pub sysv_from : ℕ → List ℕ → ℕ
sysv_from hash [] = hash
sysv_from hash (byte ∷ bytes) = sysv_from (sysv_step hash byte) bytes

abbrev pub sysv_hash : List ℕ → ℕ
sysv_hash name = sysv_from 0 name

-- `gnu_hash`
abbrev pub gnu_from : ℕ → List ℕ → ℕ
gnu_from hash [] = hash
gnu_from hash (byte ∷ bytes) = gnu_from ((hash * 33 % 2 ^ 32 + byte) % 2 ^ 32) bytes

unfoldable pub gnu_hash : List ℕ → ℕ
gnu_hash name = gnu_from 5381 name

pub data DynamicSymbolsError : Type 0 where
  invalid_hash address_overflow symbol_outside_table invalid_name_offset : DynamicSymbolsError
  read_error : ℕ → DynamicSymbolsError

pub record DynamicSymbol : Type 0 where
  pub index : ℕ
  pub symbol : Symbol
  pub name : List ℕ

pub record Memory : Type 0 where
  pub read_u32 : ℕ → Result DynamicSymbolsError ℕ
  pub read_word : ℕ → Result DynamicSymbolsError ℕ
  pub lift_symbol : ℕ → Result DynamicSymbolsError Symbol
  pub name_bytes : ℕ → ℕ → Result DynamicSymbolsError (List ℕ)

-- `DynamicSymbols`, less the load bias and the hash table, and the size of a symbol record.
pub record Tables : Type 0 where
  pub symbol_table : ℕ
  pub symbol_capacity : ℕ
  pub string_table : ℕ
  pub string_size : ℕ
  pub symbol_stride : ℕ

pub record SysvTable : Type 0 where
  pub address : ℕ
  pub buckets : ℕ
  pub symbols : ℕ

pub record GnuTable : Type 0 where
  pub address : ℕ
  pub buckets : ℕ
  pub symbol_offset : ℕ
  pub bloom_words : ℕ
  pub bloom_shift : ℕ
  pub chain_words : ℕ

pub record GnuBucket : Type 0 where
  pub symbol : ℕ
  pub chains : ℕ

-- `add`
abbrev pub add : ℕ → ℕ → Result DynamicSymbolsError ℕ
add target_address target_offset = ok_or (checked_add target_address target_offset) address_overflow

-- The offset of a word of four or eight bytes in an array that starts at `base`.
abbrev pub element : ℕ → ℕ → ℕ → Result DynamicSymbolsError ℕ
element base index size =
    try_then (ok_or (checked_mul index size) address_overflow)
      λ scaled. ok_or (checked_add base scaled) address_overflow

pub data ChainStep : Type 0 where
  found : DynamicSymbol → ChainStep
  absent : ChainStep
  onward : ℕ → ChainStep

abbrev pub after_candidate : ℕ → ℕ → Option DynamicSymbol → Result DynamicSymbolsError ChainStep
after_candidate chain_hash symbol (some s) = ok (found s)
after_candidate chain_hash symbol none =
    if not (bit_and chain_hash 1 == 0)
    then ok absent
    else if ltb (symbol + 1) (2 ^ 32)
    then ok (onward (symbol + 1))
    else err invalid_hash

-- `size_of::<Word>()`
abbrev pub word_bytes : ElfClass → ℕ
word_bytes c = bits c / 8

module _ (memory : Memory) (tables : Tables) where
  -- The bytes of the string table from the name on, at least one.
  abbrev pub name_limit : ℕ → Result DynamicSymbolsError ℕ
  name_limit name_offset = elim (checked_sub tables.string_size name_offset) [
    | none ↦ err invalid_name_offset
    | some n ↦ if n == 0 then err invalid_name_offset else ok n
  ]

  -- `DynamicSymbols::symbol`
  unfoldable pub symbol_at : ℕ → Result DynamicSymbolsError DynamicSymbol
  symbol_at index =
      if not (ltb index tables.symbol_capacity)
      then err symbol_outside_table
      else try_then (ok_or (checked_mul index tables.symbol_stride) address_overflow) λ offset.
        try_then (add tables.symbol_table offset) λ symbol_address.
          try_then (memory.lift_symbol symbol_address) λ s.
            try_then (name_limit s.name_offset) λ limit.
              try_then (add tables.string_table s.name_offset) λ name_address.
                try_then (memory.name_bytes name_address limit)
                  λ name. ok (record { index = index; symbol = s; name = name })

  -- The word of the chain at an index of the System V table.
  abbrev pub sysv_next : SysvTable → ℕ → Result DynamicSymbolsError ℕ
  sysv_next table index = try_then (element 8 table.buckets 4) λ chains_offset.
      try_then (element chains_offset index 4) λ chain_offset.
        try_then (add table.address chain_offset) λ chain_address. memory.read_u32 chain_address

  -- The loop of `DynamicSymbols::sysv`, with the steps that are left; zero is `STN_UNDEF`.
  unfoldable pub sysv_walk :
      SysvTable → List ℕ → ℕ → ℕ → Result DynamicSymbolsError (Option DynamicSymbol)
  sysv_walk table name zero index = err invalid_hash
  sysv_walk table name (suc steps) index =
      if index == 0
      then ok none
      else if not (ltb index table.symbols)
      then err invalid_hash
      else try_then (symbol_at index) λ s.
        if bytes_eq s.name name
        then ok (some s)
        else try_then (sysv_next table index) λ next. sysv_walk table name steps next

  -- `DynamicSymbols::sysv`
  unfoldable pub sysv : SysvTable → List ℕ → Result DynamicSymbolsError (Option DynamicSymbol)
  sysv table name = try_then (element 8 (sysv_hash name % table.buckets) 4) λ bucket_offset.
      try_then (add table.address bucket_offset) λ bucket_address.
        try_then (memory.read_u32 bucket_address) λ first. sysv_walk table name table.symbols first

  -- The word of the chain of a symbol of the GNU table.
  unfoldable pub chain_word : GnuTable → ℕ → ℕ → Result DynamicSymbolsError ℕ
  chain_word table chains symbol =
      try_then (ok_or (checked_sub symbol table.symbol_offset) invalid_hash) λ relative.
        if leb table.chain_words relative
        then err invalid_hash
        else try_then (element chains relative 4) λ chain_offset.
          try_then (add table.address chain_offset) λ chain_address. memory.read_u32 chain_address

  -- The lookup of a candidate, filtered by its name.
  abbrev pub candidate : List ℕ → ℕ → ℕ → ℕ → Result DynamicSymbolsError (Option DynamicSymbol)
  candidate name hash chain_hash symbol =
      if bit_and chain_hash 4294967294 == bit_and hash 4294967294
      then (try_then (symbol_at symbol) λ s. ok (if bytes_eq s.name name then some s else none))
      else ok none

  -- One round of the loop of `DynamicSymbols::chain`.
  unfoldable pub chain_step : GnuTable → List ℕ → ℕ → ℕ → ℕ → Result DynamicSymbolsError ChainStep
  chain_step table name hash chains symbol = try_then (chain_word table chains symbol) λ chain_hash.
      try_then (candidate name hash chain_hash symbol)
        λ matched. after_candidate chain_hash symbol matched

  unfoldable pub chain_loop :
      GnuTable → List ℕ → ℕ → ℕ → ℕ → ℕ → Run DynamicSymbolsError (Option DynamicSymbol)
  chain_loop table name hash chains zero symbol = none
  chain_loop table name hash chains (suc fuel) symbol =
      elim (chain_step table name hash chains symbol) [
        | err e ↦ some (err e)
        | ok (found s) ↦ some (ok (some s))
        | ok absent ↦ some (ok none)
        | ok (onward next) ↦ chain_loop table name hash chains fuel next
      ]

  -- `DynamicSymbols::chain`; each round goes one word along the chain.
  unfoldable pub chain :
      GnuTable → List ℕ → ℕ → GnuBucket → Run DynamicSymbolsError (Option DynamicSymbol)
  chain table name hash bucket =
      chain_loop table name hash bucket.chains (suc table.chain_words) bucket.symbol

  module _ (c : ElfClass) where
    -- `DynamicSymbols::bloom`
    unfoldable pub bloom : GnuTable → ℕ → Result DynamicSymbolsError Bool
    bloom table hash =
        try_then (element 16 (hash / bits c % table.bloom_words) (word_bytes c)) λ bloom_offset.
          try_then (add table.address bloom_offset) λ bloom_address.
            try_then (memory.read_word bloom_address) λ word.
              let mask =
                bit_or (2 ^ (hash % bits c)) (2 ^ (hash / 2 ^ table.bloom_shift % bits c)) in
              ok (bit_and word mask == mask)

    -- `DynamicSymbols::bucket`
    unfoldable pub bucket : GnuTable → ℕ → Result DynamicSymbolsError (Option GnuBucket)
    bucket table hash = try_then (element 16 table.bloom_words (word_bytes c)) λ buckets_offset.
        try_then (element buckets_offset (hash % table.buckets) 4) λ bucket_offset.
          try_then (add table.address bucket_offset) λ bucket_address.
            try_then (memory.read_u32 bucket_address) λ symbol.
              if symbol == 0
              then ok none
              else if ltb symbol table.symbol_offset
              then err invalid_hash
              else try_then (element buckets_offset table.buckets 4)
                  λ chains. ok (some (record { symbol = symbol; chains = chains }))

    abbrev pub in_bucket :
        GnuTable → List ℕ → ℕ → Option GnuBucket → Run DynamicSymbolsError (Option DynamicSymbol)
    in_bucket table name hash none = some (ok none)
    in_bucket table name hash (some b) = chain table name hash b

    abbrev pub with_bucket :
        GnuTable
        → List ℕ
        → ℕ
        → Result DynamicSymbolsError (Option GnuBucket)
        → Run DynamicSymbolsError (Option DynamicSymbol)
    with_bucket table name hash (err e) = some (err e)
    with_bucket table name hash (ok b) = in_bucket table name hash b

    abbrev pub with_bloom :
        GnuTable
        → List ℕ
        → ℕ
        → Result DynamicSymbolsError Bool
        → Run DynamicSymbolsError (Option DynamicSymbol)
    with_bloom table name hash (err e) = some (err e)
    with_bloom table name hash (ok false) = some (ok none)
    with_bloom table name hash (ok true) = with_bucket table name hash (bucket table hash)

    -- `DynamicSymbols::gnu`
    unfoldable pub gnu : GnuTable → List ℕ → Run DynamicSymbolsError (Option DynamicSymbol)
    gnu table name = let hash = gnu_hash name in with_bloom table name hash (bloom table hash)
