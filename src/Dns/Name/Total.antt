-- ===== src/Dns/Name/Total.antt =====
-- On which hosts `host2qname` of src/dns/dnshttps.cc returns.
use hcpp.Common.{
  ℕ, zero, suc, ◌+◌, ◌-◌, ◌*◌, ◌%◌, ◌≤◌, ◌<◌, true, false, ◌||◌, [], ◌∷◌, ◌++◌, ◌≡◌, ◌≢◌, ◌⊎◌, inl,
  inr, refl, sym, ap, ◌∙◌, subst, arith, Bytes, length, get_or, ltb, leb, ltb→lt, get_or-append_lt,
  ◌==◌, Bool-cases, some,
}
use hcpp.Dns.Name.{
  dot, unfinished, split_host, set, scan, set_counts, zeros, host2qname, split_limit,
}
use hcpp.Dns.Name.Gaps.{Gapped, Gapped-at, EndsDot, split_host-Gapped}

scan-more :
    (fuel : ℕ) (buf : Bytes) (last i : ℕ)
    → (get_or buf (last + i) 0 == dot || get_or buf (last + i) 0 == 0) ≡ false
    → i + 1 < 256
    → scan (suc fuel) buf last i ≡ scan fuel buf last (i + 1)
unfolding scan
scan-more fuel buf last i more b =
    let small : (i + 1) % 256 ≡ i + 1 = omega arith in rw (more, small) refl

-- The scan stops at a dot, or before.
scan-dot :
    (fuel k : ℕ) (buf : Bytes) (last i : ℕ)
    → get_or buf (last + i + k) 0 ≡ dot
    → k < fuel
    → i + k < 256
    → (j : ℕ) × (scan fuel buf last i ≡ some j) × (i ≤ j) × (j ≤ i + k)
unfolding scan
scan-dot zero k buf last i e f b = absurd (omega arith)
scan-dot (suc fuel) zero buf last i e f b =
    let here : get_or buf (last + i) 0 ≡ dot =
      ap (λ n. get_or buf n 0) {x = last + i} (omega arith) ∙ e in
    (i, rw here refl, omega arith, omega arith)
scan-dot (suc fuel) (suc k) buf last i e f b =
    elim (Bool-cases (get_or buf (last + i) 0 == dot || get_or buf (last + i) 0 == 0)) [
      | inl stop ↦ (i, rw stop refl, omega arith, omega arith)
      | inr more ↦
          let (j, found, a, d) =
            scan-dot fuel k buf last (i + 1)
              (ap (λ n. get_or buf n 0) {x = last + (i + 1) + k} (omega arith) ∙ e) (omega arith)
              (omega arith) in
          (j, scan-more fuel buf last i more (omega arith) ∙ found, omega arith, omega arith)
    ]

get_or-set_ne : (s : Bytes) (i j v : ℕ) → i ≢ j → get_or (set s i v) j 0 ≡ get_or s j 0
unfolding set
get_or-set_ne [] i j v h = refl
get_or-set_ne (x ∷ xs) zero zero v h = absurd (h refl)
get_or-set_ne (x ∷ xs) zero (suc j) v h = refl
get_or-set_ne (x ∷ xs) (suc i) zero v h = refl
get_or-set_ne (x ∷ xs) (suc i) (suc j) v h = get_or-set_ne xs i j v (λ e. h (omega arith))

-- A write within the buffer is read; outside, 0 is.
get_or-set_self :
    (s : Bytes) (i v : ℕ) → (get_or (set s i v) i 0 ≡ v) ⊎ (get_or (set s i v) i 0 ≡ 0)
unfolding set
get_or-set_self [] i v = inr refl
get_or-set_self (x ∷ xs) zero v = inl refl
get_or-set_self (x ∷ xs) (suc i) v = get_or-set_self xs i v

-- From every place before the end on, a dot is near, up to the end.
abbrev Dotted : Bytes → ℕ → ℕ → Type 0
Dotted buf size last =
    (p : ℕ)
    → last ≤ p
    → p < size
    → (k : ℕ) × (k < 64) × (p + suc k ≤ size) × (get_or buf (p + suc k) 0 ≡ dot)

Dotted-set :
    (buf : Bytes) (size last next v : ℕ)
    → Dotted buf size last
    → last ≤ next
    → Dotted (set buf last v) size next
Dotted-set buf size last next v d h p a b =
    let (k, near, inside, e) = d p (omega arith) b in
    (k, near, inside, get_or-set_ne buf last (p + suc k) v (λ q. absurd (omega arith)) ∙ e)

-- One more round is left for a place where the scan stops at once.
abbrev IsFresh : ℕ → Bytes → ℕ → Type 0
IsFresh zero buf last = (get_or buf last 0 == dot || get_or buf last 0 == 0) ≡ false
IsFresh (suc e) buf last = e ≡ 0

-- A round of the loop that does not stop goes on from the place that the scan has found.
set_counts-step :
    (fuel i : ℕ) (buf : Bytes) (size last : ℕ)
    → ltb last size ≡ true
    → scan 256 buf last 0 ≡ some i
    → let counted = set buf last ((i + 255) % 256) in
      ((get_or counted (last + i) 0 == 0) ≡ false
        → set_counts fuel counted size (last + i) ≢ unfinished)
      → set_counts (suc fuel) buf size last ≢ unfinished
unfolding set_counts
set_counts-step fuel i buf size last more found again =
    let counted = set buf last ((i + 255) % 256) in
    elim (Bool-cases (get_or counted (last + i) 0 == 0)) [
      | inl stop ↦ rw (set_counts, more, found, stop) (λ e. cc)
      | inr on ↦ elim (Bool-cases (get_or counted (last + i + 1) 0 == 0)) [
        | inl stop ↦ rw (set_counts, more, found, on, stop) (λ e. cc)
        | inr yet ↦ rw (set_counts, more, found, on, yet) (again on)
      ]
    ]

-- Where the scan stops, and that it goes on behind a place that was marked.
found_at :
    (extra k : ℕ) (buf : Bytes) (last : ℕ)
    → IsFresh extra buf last
    → get_or buf (last + suc k) 0 ≡ dot
    → k < 64
    → (i : ℕ) × (scan 256 buf last 0 ≡ some i) × (i ≤ suc k) × (1 ≤ i + extra)
found_at zero k buf last f e near =
    let zero_place : (get_or buf (last + 0) 0 == dot || get_or buf (last + 0) 0 == 0) ≡ false =
      ap (λ n. get_or buf n 0 == dot || get_or buf n 0 == 0) {x = last + 0} {y = last} (omega arith)
      ∙ f in
    let (i, found, a, b) =
      scan-dot 255 k buf last 1 (ap (λ n. get_or buf n 0) {x = last + 1 + k} (omega arith) ∙ e)
        (omega arith) (omega arith) in
    (i, scan-more 255 buf last 0 zero_place (omega arith) ∙ found, omega arith, omega arith)
found_at (suc extra) k buf last f e near =
    let (i, found, a, b) =
      scan-dot 256 (suc k) buf last 0
        (ap (λ n. get_or buf n 0) {x = last + 0 + suc k} (omega arith) ∙ e) (omega arith)
        (omega arith) in
    (i, found, omega arith, omega arith)

marked :
    (buf : Bytes) (last : ℕ)
    → (get_or (set buf last 255) last 0 == 0) ≡ false
    → IsFresh 0 (set buf last 255) last
marked buf last nonzero = elim (get_or-set_self buf last 255) [
  | inl e ↦ rw e refl
  | inr e ↦ let clash : true ≡ false = rw e at nonzero in absurd (ground (arith, clash))
]

IsFresh-le : (extra : ℕ) (buf : Bytes) (last : ℕ) → IsFresh extra buf last → extra ≤ 1
IsFresh-le zero buf last f = omega arith
IsFresh-le (suc e) buf last f = omega (arith, f)

-- What is left to show is less for the next round.
abbrev Ends : ℕ → ℕ → Type 0
Ends fuel size =
    (extra : ℕ) (buf : Bytes) (last : ℕ)
    → Dotted buf size last
    → IsFresh extra buf last
    → 2 * (size - last) + extra < fuel
    → set_counts fuel buf size last ≢ unfinished

goes_on :
    (fuel extra k i : ℕ) (buf : Bytes) (size last : ℕ)
    → Ends fuel size
    → Dotted buf size last
    → extra ≤ 1
    → 2 * (size - last) + extra < suc fuel
    → last + suc k ≤ size
    → i ≤ suc k
    → 1 ≤ i + extra
    → let counted = set buf last ((i + 255) % 256) in
      (get_or counted (last + i) 0 == 0) ≡ false
      → set_counts fuel counted size (last + i) ≢ unfinished
goes_on fuel extra k zero buf size last ends d one h inside a b on =
    let same : last + 0 ≡ last = omega arith in
    let here : (get_or (set buf last 255) last 0 == 0) ≡ false =
      ap (λ n. get_or (set buf last 255) n 0 == 0) (sym same) ∙ on in
    subst (λ n. set_counts fuel (set buf last 255) size n ≢ unfinished) (sym same)
      (ends 0 (set buf last 255) last (Dotted-set buf size last last 255 d (omega arith))
        (marked buf last here) (omega arith))
goes_on fuel extra k (suc i) buf size last ends d one h inside a b on =
    ends 1 (set buf last ((suc i + 255) % 256)) (last + suc i)
      (Dotted-set buf size last (last + suc i) _ d (omega arith)) refl (omega arith)

set_counts-Ends : (fuel size : ℕ) → Ends fuel size
unfolding set_counts
set_counts-Ends zero size extra buf last d f h = absurd (omega arith)
set_counts-Ends (suc fuel) size extra buf last d f h = elim (Bool-cases (ltb last size)) [
  | inr done ↦ rw (set_counts, done) (λ e. cc)
  | inl more ↦
      let (k, near, inside, e) = d last (omega arith) (ltb→lt last size more) in
      let (i, found, a, b) = found_at extra k buf last f e near in
      set_counts-step fuel i buf size last more found (
        goes_on fuel extra k i buf size last (set_counts-Ends fuel size) d
          (IsFresh-le extra buf last f) h inside a b)
]

Dotted-text : (text behind : Bytes) → Gapped text → Dotted (0 ∷ (text ++ behind)) (length text) 0
Dotted-text text behind g p a b =
    let (k, near, inside, e) = Gapped-at text p g b in
    (
      k,
      near,
      omega arith,
      ap (λ n. get_or (0 ∷ (text ++ behind)) n 0) {x = p + suc k} {y = suc (p + k)} (omega arith)
          ∙ get_or-append_lt text behind (p + k) 0 inside
          ∙ e,
    )

-- A host that is empty or ends in a dot has a name, or one that is too long.
pub host2qname-ends : (host : Bytes) → EndsDot host → host2qname host ≢ unfinished
unfolding host2qname
host2qname-ends host e =
    let text = split_host (length host + 1) host in
    let g = split_host-Gapped (length host + 1) host e (omega arith) in
    elim (Bool-cases (leb split_limit (length text))) [
      | inl long ↦ rw (host2qname, long) (λ q. cc)
      | inr fits ↦
          rw (host2qname, fits)
            (set_counts-Ends (2 * length text + 2) (length text) 1
              (0 ∷ (text ++ zeros (4095 - length text))) 0 (Dotted-text text _ g) refl
              (omega arith))
    ]
