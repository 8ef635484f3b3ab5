-- ===== src/Service/Entries.antt =====
-- Lookup after the operations on entries.
use hcpp.Common.{
  true, false, List, [], ◌∷◌, Option, none, some, Bytes, equal, equal_iff, ◌≡◌, refl, sym, ap, ◌∙◌,
  arith, Bool-cases, inl, inr, if◌then◌else◌,
}
use hcpp.Server.{find_entry}
use hcpp.Service.{erase_entry, set_entry}

agree : (j k x : Bytes) → equal k x ≡ true → equal j x ≡ true → equal j k ≡ true
agree j k x a b = (equal_iff j k).1 ((equal_iff j x).0 b ∙ sym ((equal_iff k x).0 a))

apart : (j k x : Bytes) → equal k x ≡ true → equal j x ≡ false → equal j k ≡ false
apart j k x a b = ap (equal j) ((equal_iff k x).0 a) ∙ b

differ : (j k x : Bytes) → equal k x ≡ false → equal j x ≡ true → equal j k ≡ false
differ j k x a b = elim (Bool-cases (equal j k)) [
  | inl e ↦
      let clash : false ≡ true =
        sym a ∙ (equal_iff k x).1 (sym ((equal_iff j k).0 e) ∙ (equal_iff j x).0 b) in
      absurd (ground (arith, clash))
  | inr e ↦ e
]

module _ {ℓ} {A : Type ℓ} where
  pub find_entry-erase_entry :
      (j k : Bytes) (xs : List (Bytes × A))
      → find_entry j (erase_entry k xs) ≡ (if equal j k then none else find_entry j xs)
  unfolding find_entry erase_entry
  find_entry-erase_entry j k [] = elim (Bool-cases (equal j k)) [
    | inl e ↦ rw e refl
    | inr e ↦ rw e refl
  ]
  find_entry-erase_entry j k (x ∷ xs) = elim (Bool-cases (equal k x.0)) [
    | inl a ↦ elim (Bool-cases (equal j x.0)) [
      | inl b ↦ rw (erase_entry, a, find_entry-erase_entry j k xs, agree j k x.0 a b) refl
      | inr b ↦ rw (erase_entry, a, find_entry, b) (find_entry-erase_entry j k xs)
    ]
    | inr a ↦ elim (Bool-cases (equal j x.0)) [
      | inl b ↦ rw (erase_entry, a, find_entry, b, differ j k x.0 a b) refl
      | inr b ↦ rw (erase_entry, a, find_entry, b) (find_entry-erase_entry j k xs)
    ]
  ]

  -- An assignment to an entry that is there.
  abbrev pub assigned : A → Option A → Option A
  assigned v none = none
  assigned v (some w) = some v

  pub find_entry-set_entry :
      (j k : Bytes) (v : A) (xs : List (Bytes × A))
      → find_entry j (set_entry k v xs)
        ≡ (if equal j k then assigned v (find_entry j xs) else find_entry j xs)
  unfolding find_entry set_entry
  find_entry-set_entry j k v [] = elim (Bool-cases (equal j k)) [
    | inl e ↦ rw e refl
    | inr e ↦ rw e refl
  ]
  find_entry-set_entry j k v (x ∷ xs) = elim (Bool-cases (equal k x.0)) [
    | inl a ↦ elim (Bool-cases (equal j x.0)) [
      | inl b ↦ rw (set_entry, a, b, find_entry, agree j k x.0 a b) refl
      | inr b ↦
          let d = apart j k x.0 a b in
          let more : find_entry j (set_entry k v xs) ≡ find_entry j xs =
            find_entry-set_entry j k v xs
            ∙ ap (λ t. if t then assigned v (find_entry j xs) else find_entry j xs) d in
          rw (set_entry, a, b, find_entry, d) more
    ]
    | inr a ↦ elim (Bool-cases (equal j x.0)) [
      | inl b ↦ rw (set_entry, a, b, differ j k x.0 a b) refl
      | inr b ↦ rw (set_entry, a, b) (find_entry-set_entry j k v xs)
    ]
  ]
