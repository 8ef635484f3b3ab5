-- ===== src/Config/Authority/Again.antt =====
-- The certificate that one run of src/config.cpp has made is the one that the next run loads.
use hcpp.Common.{
  ℕ, zero, suc, Bool, true, false, ◌&&◌, ◌||◌, [], ◌++◌, Option, none, some, Bytes, length, take,
  drop, equal, ltb, ◌≡◌, refl, sym, ap, subst, ◌∷◌, ◌∙◌, ◌≤◌, append-nil, append_assoc,
  take-append-drop, length-take, length-drop, take-all, ltb→lt, Bool-cases, Option-cases, inl, inr,
  arith,
}
use hcpp.Certificate.{Openssl, SubjectIdentify}
use hcpp.Certificate.Issue.{Draws, make_ca}
use hcpp.Config.{replace_path}
use hcpp.Config.Authority.{
  Files, append_all, Ended, thrown, ended, read_file, load_ca, save_ca, ca_config_to,
}

-- A file that was written has what was written, and the other files are as they were.
pub record AreFiles (F : Files) : Type 0 where
  pub write_contents :
      (p c : Bytes) (s t : F.Disk) → F.write p c s ≡ some t → F.contents p t ≡ some c
  pub write_exists : (p c : Bytes) (s t : F.Disk) → F.write p c s ≡ some t → F.exists p t ≡ true
  pub write_other :
      (p q c : Bytes) (s t : F.Disk)
      → F.write p c s ≡ some t
      → equal q p ≡ false
      → (F.contents q t ≡ F.contents q s) × (F.exists q t ≡ F.exists q s)
  pub directories_keep :
      (p q : Bytes) (s t : F.Disk)
      → F.create_directories p s ≡ some t
      → (F.contents q t ≡ F.contents q s) × (F.exists q s ≡ true → F.exists q t ≡ true)

append_all_lem :
    (fuel : ℕ) (pem file : Bytes) → length file ≤ fuel → append_all fuel pem file ≡ pem ++ file
unfolding append_all
append_all_lem zero pem [] h = sym (append-nil pem)
append_all_lem zero pem (c ∷ cs) h = absurd (omega arith)
append_all_lem (suc fuel) pem file h = elim (Bool-cases (ltb (length (take 1024 file)) 1024)) [
  | inl last ↦ rw last (
      ap (λ t. pem ++ t)
        (take-all 1024 file (omega (arith, ltb→lt _ _ last, length-take 1024 file))))
  | inr more ↦ rw more (
      append_all_lem fuel (pem ++ take 1024 file) (drop 1024 file)
        (omega (arith, length-drop 1024 file))
      ∙ append_assoc pem (take 1024 file) (drop 1024 file)
      ∙ ap (λ t. pem ++ t) (take-append-drop 1024 file))
]

both_true : (a b : Bool) → (a && b) ≡ true → (a ≡ true) × (b ≡ true)
both_true a b h = ground arith

unfoldable returned : {Disk : Type 0} → Ended Disk → Bool
returned thrown = false
returned (ended b si f) = b

not_ended :
    {Disk : Type 0} (s t : Option SubjectIdentify) (f g : Disk)
    → ended false s f ≡ ended true t g
    → ⊥
unfolding returned
not_ended s t f g e = let clash : false ≡ true = ap returned e in ground (arith, clash)

module _ {F : Files} (laws : AreFiles F) where
  open F use {Disk, exists, contents, write, create_directories, parent_path}
  open laws use {write_contents, write_exists, write_other, directories_keep}

  read_file_lem : (p c : Bytes) (f : Disk) → contents p f ≡ some c → read_file F p f ≡ some c
  unfolding read_file
  read_file_lem p c f e = rw (read_file, e) (ap some (append_all_lem (length c) [] c (omega arith)))

  load_ca_lem :
      (p q k c : Bytes) (f : Disk)
      → contents p f ≡ some k
      → contents q f ≡ some c
      → load_ca F p q f ≡ ended true (some (record { pkey_pem = k; cert_pem = c })) f
  unfolding load_ca
  load_ca_lem p q k c f e g = rw (load_ca, read_file_lem p k f e, read_file_lem q c f g) refl

  -- A call that was successful is followed by one that loads.
  Loads : Bytes → Bytes → Ended Disk → Type 0
  Loads p q thrown = Unit {0}
  Loads p q (ended false si f) = Unit {0}
  Loads p q (ended true si f) =
      (exists p f ≡ true) × (exists q f ≡ true) × (load_ca F p q f ≡ ended true si f)

  saved :
      (p q : Bytes) (si : SubjectIdentify) (f1 f2 f3 f4 : Disk)
      → equal p q ≡ false
      → write p si.pkey_pem f1 ≡ some f2
      → create_directories (parent_path q) f2 ≡ some f3
      → write q si.cert_pem f3 ≡ some f4
      → (exists p f4 ≡ true) × (exists q f4 ≡ true) × (load_ca F p q f4 ≡ ended true (some si) f4)
  saved p q si f1 f2 f3 f4 apart e2 e3 e4 =
      let (same, there) = write_other q p si.cert_pem f3 f4 e4 apart in
      let (same3, there3) = directories_keep (parent_path q) p f2 f3 e3 in
      (
        there ∙ there3 (write_exists p si.pkey_pem f1 f2 e2),
        write_exists q si.cert_pem f3 f4 e4,
        load_ca_lem p q si.pkey_pem si.cert_pem f4
            (same ∙ same3 ∙ write_contents p si.pkey_pem f1 f2 e2)
            (write_contents q si.cert_pem f3 f4 e4),
      )

  save_ca-Loads :
      (p q : Bytes) (si : SubjectIdentify) (f : Disk)
      → equal p q ≡ false
      → Loads p q (save_ca F p q si f)
  unfolding save_ca Loads
  save_ca-Loads p q si f apart = elim (Option-cases (create_directories (parent_path p) f)) [
    | inl e ↦ rw (save_ca, e) tt
    | inr (f1, e1) ↦ elim (Option-cases (write p si.pkey_pem f1)) [
      | inl e ↦ rw (save_ca, e1, e) tt
      | inr (f2, e2) ↦ elim (Option-cases (create_directories (parent_path q) f2)) [
        | inl e ↦ rw (save_ca, e1, e2, e) tt
        | inr (f3, e3) ↦ elim (Option-cases (write q si.cert_pem f3)) [
          | inl e ↦ rw (save_ca, e1, e2, e3, e) tt
          | inr (f4, e4) ↦ rw (save_ca, e1, e2, e3, e4) (saved p q si f1 f2 f3 f4 apart e2 e3 e4)
        ]
      ]
    ]
  ]

  load_ca-Loads :
      (p q : Bytes) (f : Disk) → exists p f ≡ true → exists q f ≡ true → Loads p q (load_ca F p q f)
  unfolding load_ca Loads
  load_ca-Loads p q f here there = elim (Option-cases (read_file F p f)) [
    | inl e ↦ rw (load_ca, e) tt
    | inr (k, e) ↦ elim (Option-cases (read_file F q f)) [
      | inl g ↦ rw (load_ca, e, g) tt
      | inr (c, g) ↦ rw (load_ca, e, g) (here, there, rw (load_ca, e, g) refl)
    ]
  ]

  ca_config_to-loaded :
      (o : Openssl) (d : Draws) (home : Option Bytes) (p q : Bytes) (g : Disk)
      (si : Option SubjectIdentify) (r : Ended Disk)
      → Loads (replace_path home p) (replace_path home q) r
      → r ≡ ended true si g
      → (equal (replace_path home p) [] || equal (replace_path home q) []) ≡ false
      → ca_config_to F o d home p q g ≡ ended true si g
  unfolding ca_config_to Loads
  ca_config_to-loaded o d home p q g si r l e named =
      let (here, there, loads) = subst (Loads (replace_path home p) (replace_path home q)) e l in
      rw (named, here, there) loads

  -- If a file that was written has what was written and other files stay, and the two paths are
  -- different, then after a successful run of the configuration of the server a second run on the
  -- same paths, whatever it would draw, succeeds with the same key and certificate and leaves the
  -- files as they are.
  pub ca_config_to-again :
      (o : Openssl) (d e : Draws) (home : Option Bytes) (p q : Bytes) (f g : Disk)
      (si : Option SubjectIdentify)
      → equal (replace_path home p) (replace_path home q) ≡ false
      → ca_config_to F o d home p q f ≡ ended true si g
      → ca_config_to F o e home p q g ≡ ended true si g
  unfolding ca_config_to
  ca_config_to-again o d e home p q f g si apart h =
      let pk = replace_path home p in
      let ct = replace_path home q in
      elim (Bool-cases (equal pk [] || equal ct [])) [
        | inl unnamed ↦
            let r : ca_config_to F o d home p q f ≡ ended false none f =
              rw (ca_config_to, unnamed) refl in
            absurd (not_ended none si f g (sym r ∙ h))
        | inr named ↦ elim (Bool-cases (exists pk f && exists ct f)) [
          | inl stored ↦
              let r : ca_config_to F o d home p q f ≡ load_ca F pk ct f =
                rw (ca_config_to, named, stored) refl in
              ca_config_to-loaded o e home p q g si (load_ca F pk ct f)
                (load_ca-Loads pk ct f (both_true _ _ stored).0 (both_true _ _ stored).1)
                (sym r ∙ h) named
          | inr missing ↦
              let r : ca_config_to F o d home p q f ≡ save_ca F pk ct (make_ca o d) f =
                rw (ca_config_to, named, missing) refl in
              ca_config_to-loaded o e home p q g si (save_ca F pk ct (make_ca o d) f)
                (save_ca-Loads pk ct (make_ca o d) f apart) (sym r ∙ h) named
        ]
      ]
