-- ===== src/PageTable/TableEntries.antt =====
-- src/c/page_table.c: the words that `PT_init` stores, for the tables and for their empty entries.
use Prim.Native.Nat.{bit_or}
use implement_os.Prelude.{ℕ, ◌+◌, ◌/◌, ◌≡◌, refl, arith, true, ◌∙◌, ap}
use implement_os.Prelude.Bits.{bit_or-halves, bit_or-zero, zero-bit_or}
use implement_os.PageTable.{table_entry, top_entry, user_entry}
use implement_os.PageTable.Entry.{
  set_present, set_rw, set_us, set_allocatable, is_present, is_allocatable, set_add, get_add,
}
use implement_os.PageTable.EntryLaws.{IsFrame, mask-frame, with_address, with_present, flags_masked}

module _ {a : ℕ} (h : IsFrame a) where
  also_rw : set_rw (a + 1) true ≡ a + 3
  unfolding set_rw
  also_rw =
      let h0 = bit_or-halves (a + 1) 2 in
      let h1 = bit_or-halves ((a + 1) / 2) 1 in omega (arith, h0, h1, bit_or-zero ((a + 1) / 2 / 2))

  also_us : set_us (a + 3) true ≡ a + 7
  unfolding set_us
  also_us =
      let h0 = bit_or-halves (a + 3) 4 in
      let h1 = bit_or-halves ((a + 3) / 2) 2 in
      let h2 = bit_or-halves ((a + 3) / 2 / 2) 1 in
      omega (arith, h0, h1, h2, bit_or-zero ((a + 3) / 2 / 2 / 2))

  -- the entry that leads to a table, in either order of its bits
  pub table_entry-frame : table_entry a ≡ a + 7
  table_entry-frame = rw (with_address h, with_present h, also_rw, also_us)

  flags_or : bit_or 7 a ≡ a + 7
  flags_or =
      let h0 = bit_or-halves 7 a in
      let h1 = bit_or-halves 3 (a / 2) in
      let h2 = bit_or-halves 1 (a / 2 / 2) in omega (arith, h0, h1, h2, zero-bit_or (a / 2 / 2 / 2))

  pub top_entry-frame : top_entry a ≡ a + 7
  unfolding set_add set_rw set_us set_present
  top_entry-frame = ap (bit_or 7) (mask-frame a h).1 ∙ flags_or

  pub get_add-frame : get_add (a + 7) ≡ a
  unfolding get_add
  get_add-frame = flags_masked h

-- An entry of a new table is neither present nor allocatable.
pub user_entry_lem : (is_present user_entry ≡ 0) × (is_allocatable user_entry ≡ 0)
unfolding is_present is_allocatable set_allocatable set_add set_rw set_us set_present
user_entry_lem = (refl, refl)
