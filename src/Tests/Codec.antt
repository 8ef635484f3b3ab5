-- ===== src/Tests/Codec.antt =====
-- Values as texts without the byte 0 that are read back whatever stands behind them, for a
-- certificate that can be evaluated.
use hcpp.Common.{
  ℕ, zero, suc, List, [], ◌∷◌, ◌++◌, Option, none, some, Bytes, ◌≡◌, refl, arith, ap, ◌∙◌,
  append_assoc, length,
}
use hcpp.Http.Chunks.{c_string}

pub record Codec (A : Type 0) : Type 0 where
  pub enc : A → Bytes
  pub dec : Bytes → Option (A × Bytes)
  pub read_lem : (a : A) (rest : Bytes) → dec (enc a ++ rest) ≡ some (a, rest)
  pub text_lem : (a : A) (rest : Bytes) → c_string (enc a ++ rest) ≡ enc a ++ c_string rest

pub nat_dec : Bytes → Option (ℕ × Bytes)
nat_dec [] = none
nat_dec (zero ∷ bs) = none
nat_dec (suc n ∷ bs) = some (n, bs)

pub nat_text : (n : ℕ) (rest : Bytes) → c_string (suc n ∷ rest) ≡ suc n ∷ c_string rest
unfolding c_string
nat_text n rest = ground arith

pub nat_read : (n : ℕ) (rest : Bytes) → nat_dec (suc n ∷ rest) ≡ some (n, rest)
unfolding nat_dec
nat_read n rest = refl

abbrev pub nat_codec : Codec ℕ
nat_codec = record {
  enc = λ n. suc n ∷ [];
  dec = nat_dec;
  read_lem = nat_read;
  text_lem = nat_text;
}

-- A type whose values another type's stand for.
module _ {A B : Type 0} (c : Codec B) (to : A → B) (from : B → A) where
  pub moved : Option (B × Bytes) → Option (A × Bytes)
  moved none = none
  moved (some (b, r)) = some (from b, r)

  pub via_read :
      ((a : A) → from (to a) ≡ a)
      → (a : A) (rest : Bytes) → moved (c.dec (c.enc (to a) ++ rest)) ≡ some (a, rest)
  unfolding moved
  via_read back a rest = ap moved (c.read_lem (to a) rest) ∙ ap (λ x. some (x, rest)) (back a)

  abbrev pub via : ((a : A) → from (to a) ≡ a) → Codec A
  via back = record {
    enc = λ a. c.enc (to a);
    dec = λ t. moved (c.dec t);
    read_lem = via_read back;
    text_lem = λ a rest. c.text_lem (to a) rest;
  }

module _ {A B : Type 0} (a : Codec A) (b : Codec B) where
  pub second : A → Option (B × Bytes) → Option ((A × B) × Bytes)
  second x none = none
  second x (some (y, r)) = some ((x, y), r)

  pub both : Option (A × Bytes) → Option ((A × B) × Bytes)
  both none = none
  both (some (x, r)) = second x (b.dec r)

  pub both-read :
      (x : A) (y : B) (rest : Bytes)
      → both (a.dec ((a.enc x ++ b.enc y) ++ rest)) ≡ some ((x, y), rest)
  unfolding both second
  both-read x y rest =
      ap (λ t. both (a.dec t)) (append_assoc (a.enc x) (b.enc y) rest)
      ∙ ap both (a.read_lem x (b.enc y ++ rest))
      ∙ ap (second x) (b.read_lem y rest)

  pub both-text :
      (x : A) (y : B) (rest : Bytes)
      → c_string ((a.enc x ++ b.enc y) ++ rest) ≡ (a.enc x ++ b.enc y) ++ c_string rest
  both-text x y rest = simp (append_assoc, a.text_lem, b.text_lem)

  abbrev pub pair : Codec (A × B)
  pair = record {
    enc = λ p. a.enc p.0 ++ b.enc p.1;
    dec = λ t. both (a.dec t);
    read_lem = λ p rest. both-read p.0 p.1 rest;
    text_lem = λ p rest. both-text p.0 p.1 rest;
  }

module _ {A : Type 0} (a : Codec A) where
  pub all_enc : List A → Bytes
  all_enc [] = []
  all_enc (x ∷ xs) = a.enc x ++ all_enc xs

  pub more : A → Option (List A × Bytes) → Option (List A × Bytes)
  more x none = none
  more x (some (xs, r)) = some (x ∷ xs, r)

  pub items : ℕ → Bytes → Option (List A × Bytes)
  unfolding more
  items zero t = some ([], t)
  items (suc n) t = elim (a.dec t) [ none ↦ none | some (x, r) ↦ more x (items n r) ]

  pub counted : Option (ℕ × Bytes) → Option (List A × Bytes)
  counted none = none
  counted (some (n, r)) = items n r

  pub items-read :
      (xs : List A) (rest : Bytes) → items (length xs) (all_enc xs ++ rest) ≡ some (xs, rest)
  unfolding items all_enc more
  items-read [] rest = refl
  items-read (x ∷ xs) rest =
      rw (append_assoc (a.enc x) (all_enc xs) rest)
        (rw (items, a.read_lem x (all_enc xs ++ rest), items-read xs rest) refl)

  pub items-text :
      (xs : List A) (rest : Bytes) → c_string (all_enc xs ++ rest) ≡ all_enc xs ++ c_string rest
  unfolding all_enc
  items-text [] rest = refl
  items-text (x ∷ xs) rest = simp (append_assoc, a.text_lem, items-text xs)

  pub list_read :
      (xs : List A) (rest : Bytes)
      → counted (nat_dec (suc (length xs) ∷ (all_enc xs ++ rest))) ≡ some (xs, rest)
  unfolding counted nat_dec
  list_read xs rest = items-read xs rest

  pub list_text :
      (xs : List A) (rest : Bytes)
      → c_string (suc (length xs) ∷ (all_enc xs ++ rest))
        ≡ suc (length xs) ∷ (all_enc xs ++ c_string rest)
  list_text xs rest =
      nat_text (length xs) (all_enc xs ++ rest) ∙ ap (◌∷◌ (suc (length xs))) (items-text xs rest)

  abbrev pub list : Codec (List A)
  list = record {
    enc = λ xs. suc (length xs) ∷ all_enc xs;
    dec = λ t. counted (nat_dec t);
    read_lem = list_read;
    text_lem = list_text;
  }
