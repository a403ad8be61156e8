-- ===== src/Rw/Table/Key.antt =====
-- What the sorting columns of a row hold, as numbers, and how `operator<` shows in them.
use evm_assigner.Base.{
  ℕ, ◌^◌, ◌<◌, ◌≡◌, inl, inr, refl, arith, List, ◌∷◌, ◌++◌, true, ◌==◌, Bool-cases,
}
use evm_assigner.Rw.{RwOperation, rw_lt}
use evm_assigner.Rw.Digits.{digits, LexLt, LexLt-append, LexLt-prefix, digits-LexLt}

-- The chunks of the id, the address, the storage key and the rw id, behind the operation. The
-- column of the field type is never written.
unfoldable pub sort_key : RwOperation → List ℕ
sort_key a =
    a.op
    ∷ (digits 2 a.id ++ (digits 10 a.address ++ 0 ∷ (digits 16 a.storage_key ++ digits 2 a.rw_id)))

-- Each field fits its columns.
pub record IsInRange (a : RwOperation) : Type 0 where
  pub op_fits : a.op < 13
  pub address_fits : a.address < 2 ^ 160
  pub no_field : a.field ≡ 0
  pub storage_key_fits : a.storage_key < 2 ^ 256
  pub rw_id_fits : a.rw_id < 2 ^ 32

-- The order as a choice of the field that decides it.
pub data Decides (a b : RwOperation) : Type 0 where
  by_op : a.op < b.op → Decides a b
  by_address : a.op ≡ b.op → a.address < b.address → Decides a b
  by_storage_key : a.op ≡ b.op → a.address ≡ b.address → a.storage_key < b.storage_key → Decides a b
  by_rw_id :
      a.op ≡ b.op
      → a.address ≡ b.address
      → a.storage_key ≡ b.storage_key
      → a.rw_id < b.rw_id
      → Decides a b

module _ (a b : RwOperation) (ra : IsInRange a) (rb : IsInRange b) where
  rw_lt-Decides : rw_lt a b ≡ true → Decides a b
  unfolding rw_lt
  rw_lt-Decides less = elim (Bool-cases (a.op == b.op)) [
    | inr op_ne ↦ by_op (ground arith)
    | inl op_eq ↦ elim (Bool-cases (a.address == b.address)) [
      | inr address_ne ↦ by_address (ground arith) (ground arith)
      | inl address_eq ↦ elim (Bool-cases (a.storage_key == b.storage_key)) [
        | inr key_ne ↦ by_storage_key (ground arith) (ground arith) (ground arith)
        | inl key_eq ↦ by_rw_id (ground arith) (ground arith) (ground arith) (ground arith)
      ]
    ]
  ]

  module _ (same_id : a.id ≡ b.id) where
    -- Equal numbers have equal chunks, and the smaller number has the smaller chunks.
    Decides-LexLt : Decides a b → LexLt (sort_key a) (sort_key b)
    unfolding sort_key
    Decides-LexLt (by_op h) = inl h
    Decides-LexLt (by_address e h) = inr (
      e,
      rw same_id (
          LexLt-prefix (digits 2 b.id) _ _ (
            LexLt-append (digits 10 a.address) (digits 10 b.address) _ _ (
              digits-LexLt 10 a.address b.address
                (omega (arith, ra.address_fits, rb.address_fits))))),
    )
    Decides-LexLt (by_storage_key e e' h) = inr (
      e,
      rw (same_id, e')
          (LexLt-prefix (digits 2 b.id) _ _ (
            LexLt-prefix (digits 10 b.address) _ _ (
              inr (
                refl,
                LexLt-append (digits 16 a.storage_key) (digits 16 b.storage_key) _ _ (
                    digits-LexLt 16 a.storage_key b.storage_key
                      (omega (arith, ra.storage_key_fits, rb.storage_key_fits))),
              )))),
    )
    Decides-LexLt (by_rw_id e e' e'' h) = inr (
      e,
      rw (same_id, e', e'')
          (LexLt-prefix (digits 2 b.id) _ _ (
            LexLt-prefix (digits 10 b.address) _ _ (
              inr (
                refl,
                LexLt-prefix (digits 16 b.storage_key) _ _
                    (digits-LexLt 2 a.rw_id b.rw_id (omega (arith, ra.rw_id_fits, rb.rw_id_fits))),
              )))),
    )

    -- For two operations of one call in the ranges of their columns, operator< implies that the
    -- 16-bit chunks in the sorting columns of the first are lexicographically below those of the
    -- second.
    pub sort_key-LexLt : rw_lt a b ≡ true → LexLt (sort_key a) (sort_key b)
    sort_key-LexLt less = Decides-LexLt (rw_lt-Decides less)
