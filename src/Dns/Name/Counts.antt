-- ===== src/Dns/Name/Counts.antt =====
-- The second loop of `host2qname` of src/dns/dnshttps.cc, which replaces dots by lengths.
use hcpp.Common.{
  ℕ, zero, suc, ◌+◌, ◌-◌, ◌*◌, ◌%◌, ◌≤◌, ◌<◌, true, false, List, [], ◌∷◌, ◌++◌, some, ◌≡◌, ◌≢◌, ◌⊎◌,
  inl, inr, refl, sym, ap, ◌∙◌, arith, Bytes, length, take, get_or, ltb, ◌==◌, if◌then◌else◌,
  append_assoc, append-nil, length-append, take-append_ge,
}
use hcpp.Dns.Name.{dot, set, scan, Qname, qname, set_counts}
use hcpp.Dns.Name.Wire.{IsPlain, AreLabels, wire, dotted, IsTail, get_or-append}

set-append :
    (pre ys : Bytes) (y v n : ℕ) → n ≡ length pre → set (pre ++ (y ∷ ys)) n v ≡ pre ++ (v ∷ ys)
unfolding set
set-append [] ys y v zero e = refl
set-append [] ys y v (suc n) e = absurd (omega arith)
set-append (x ∷ xs) ys y v zero e = absurd (omega arith)
set-append (x ∷ xs) ys y v (suc n) e = ap (◌∷◌ x) (set-append xs ys y v n (omega arith))

-- The byte at which a scan stops.
abbrev IsStop : ℕ → Type 0
IsStop c = (c ≡ 46) ⊎ (c ≡ 0)

scan-stop :
    (f : ℕ) (pre : Bytes) (u last i : ℕ) (rest : Bytes)
    → IsStop u
    → last + i ≡ length pre
    → scan (suc f) (pre ++ (u ∷ rest)) last i ≡ some i
unfolding scan
scan-stop f pre u last i rest s e = ground (arith, get_or-append pre (u ∷ rest) 0 (last + i))

scan-step :
    (f : ℕ) (pre : Bytes) (c last i : ℕ) (rest : Bytes)
    → c ≢ 46
    → c ≢ 0
    → last + i ≡ length pre
    → i + 1 < 256
    → scan (suc f) (pre ++ (c ∷ rest)) last i ≡ scan f (pre ++ (c ∷ rest)) last (i + 1)
unfolding scan
scan-step f pre c last i rest nd nz e h =
    let small : (i + 1) % 256 ≡ i + 1 = omega arith in
    rw small (ground (arith, get_or-append pre (c ∷ rest) 0 (last + i)))

scan-plain :
    (f : ℕ) (l pre : Bytes) (u last i : ℕ) (rest : Bytes)
    → IsPlain l
    → IsStop u
    → last + i ≡ length pre
    → i + length l < 256
    → length l < f
    → scan f (pre ++ (l ++ (u ∷ rest))) last i ≡ some (i + length l)
scan-plain zero l pre u last i rest p s e h f = absurd (omega arith)
scan-plain (suc n) [] pre u last i rest p s e h f =
    scan-stop n pre u last i rest s e ∙ ap some {x = i} (omega arith)
scan-plain (suc n) (c ∷ cs) pre u last i rest p s e h f =
    let moved = append_assoc pre (c ∷ []) (cs ++ (u ∷ rest)) in
    scan-step n pre c last i (cs ++ (u ∷ rest)) p.0 p.1 e (omega arith)
    ∙ ap (λ b. scan n b last (i + 1)) (sym moved)
    ∙ scan-plain n cs (pre ++ (c ∷ [])) u last (i + 1) rest p.2 s
        (omega (arith, length-append pre (c ∷ []))) (omega arith) (omega arith)
    ∙ ap some {x = i + 1 + length cs} (omega arith)

-- One round at a dot or at the start of the buffer: it is marked, and the position stays.
set_counts-mark :
    (f size last t c : ℕ) (pre rest : Bytes)
    → IsStop t
    → c ≢ 0
    → last ≡ length pre
    → last < size
    → set_counts (suc f) (pre ++ (t ∷ c ∷ rest)) size last
      ≡ set_counts f (pre ++ (255 ∷ c ∷ rest)) size last
unfolding set_counts
set_counts-mark f size last t c pre rest s nz e h =
    let more : ltb last size ≡ true = ground arith in
    let stays : last + 0 ≡ last = omega arith in
    let found = scan-stop 255 pre t last 0 (c ∷ rest) s (omega arith) in
    let written = set-append pre (c ∷ rest) t 255 last e in
    let here : get_or (pre ++ (255 ∷ c ∷ rest)) last 0 ≡ 255 =
      get_or-append pre (255 ∷ c ∷ rest) 0 last (omega arith) in
    let behind : get_or (pre ++ (255 ∷ c ∷ rest)) (last + 1) 0 ≡ c =
      get_or-append pre (255 ∷ c ∷ rest) 1 (last + 1) (omega arith) in
    let nonzero : (c == 0) ≡ false = ground arith in
    rw (set_counts, more, found, set_counts, stays, written, here, behind, nonzero)

-- What a round makes of the byte `u` that ends a label, with `rest` behind it.
after_label : ℕ → ℕ → Bytes → ℕ → Bytes → Qname
after_label f size pre u rest =
    if u == 0
    then qname (pre ++ (0 ∷ []))
    else if get_or rest 0 0 == 0
    then qname (pre ++ (0 ∷ []))
    else set_counts f (pre ++ (u ∷ rest)) size (length pre)

take-snoc :
    (pre rest : Bytes) (u n : ℕ) → n ≡ length pre + 1 → take n (pre ++ (u ∷ rest)) ≡ pre ++ (u ∷ [])
take-snoc pre rest u n e =
    take-append_ge n pre (u ∷ rest) (omega arith)
    ∙ ap (λ k. pre ++ take k (u ∷ rest)) {x = n - length pre} {y = 1} (omega arith)

-- One round at a marked place: the length of the label behind it is filled in.
set_counts-label :
    (f size last u : ℕ) (pre l rest : Bytes)
    → IsPlain l
    → 0 < length l
    → length l ≤ 63
    → IsStop u
    → last ≡ length pre
    → last < size
    → set_counts (suc f) (pre ++ (255 ∷ (l ++ (u ∷ rest)))) size last
      ≡ after_label f size (pre ++ (length l ∷ l)) u rest
unfolding set_counts after_label
set_counts-label f size last u pre l rest p n h s e lt =
    let more : ltb last size ≡ true = ground arith in
    let found : scan 256 (pre ++ (255 ∷ (l ++ (u ∷ rest)))) last 0 ≡ some (suc (length l)) =
      scan-plain 256 (255 ∷ l) pre u last 0 rest ((λ q. omega arith), (λ q. omega arith), p) s
        (omega arith) (omega arith) (omega arith)
      ∙ ap some {x = 0 + suc (length l)} (omega arith) in
    let count : (suc (length l) + 255) % 256 ≡ length l = omega arith in
    let written = set-append pre (l ++ (u ∷ rest)) 255 (length l) last e in
    let pre' = pre ++ (length l ∷ l) in
    let regroup : pre ++ (length l ∷ (l ++ (u ∷ rest))) ≡ pre' ++ (u ∷ rest) =
      sym (append_assoc pre (length l ∷ l) (u ∷ rest)) in
    let size' : last + suc (length l) ≡ length pre' =
      omega (arith, length-append pre (length l ∷ l)) in
    let here : get_or (pre' ++ (u ∷ rest)) (length pre') 0 ≡ u =
      get_or-append pre' (u ∷ rest) 0 (length pre') (omega arith) in
    let behind : get_or (pre' ++ (u ∷ rest)) (length pre' + 1) 0 ≡ get_or rest 0 0 =
      get_or-append pre' (u ∷ rest) 1 (length pre' + 1) (omega arith) in
    let whole = take-snoc pre' rest u (length pre' + 1) refl in
    let ended =
      ap (take (length pre' + 1)) (set-append pre' rest u 0 (length pre') refl)
      ∙ take-snoc pre' rest 0 (length pre' + 1) refl in
    rw (more, found, set_counts, count, written, regroup, size', here, behind, whole, ended)
      (ground arith)

-- Both rounds for a label.
set_counts-two :
    (f size t u : ℕ) (pre l rest : Bytes)
    → IsStop t
    → IsPlain l
    → 0 < length l
    → length l ≤ 63
    → IsStop u
    → length pre < size
    → set_counts (suc (suc f)) (pre ++ (t ∷ (l ++ (u ∷ rest)))) size (length pre)
      ≡ after_label f size (pre ++ (length l ∷ l)) u rest
set_counts-two f size t u pre [] rest st p n h s lt = absurd (omega arith)
set_counts-two f size t u pre (c ∷ cs) rest st p n h s lt =
    set_counts-mark (suc f) size (length pre) t c pre (cs ++ (u ∷ rest)) st p.1 refl lt
    ∙ set_counts-label f size (length pre) u pre (c ∷ cs) rest p n h s refl lt

dotted-head :
    (tail : Bytes) (k : Bytes) (ls : List Bytes) (z : Bytes)
    → AreLabels (k ∷ ls)
    → get_or (dotted tail (k ∷ ls) ++ z) 0 0 ≢ 0
unfolding dotted
dotted-head tail [] ls z a = absurd (omega (arith, a.1))
dotted-head tail (c ∷ cs) [] z a = a.0.1
dotted-head tail (c ∷ cs) (j ∷ ls) z a = a.0.1

-- A buffer in which labels stand behind a stop turns into their wire form.
pub set_counts-wire :
    (f size t : ℕ) (pre tail z : Bytes) (ls : List Bytes)
    → IsStop t
    → AreLabels ls
    → 0 < length ls
    → IsTail tail
    → length pre + length (dotted [] ls) ≤ size
    → 2 * length ls ≤ f
    → set_counts f (pre ++ (t ∷ (dotted tail ls ++ (0 ∷ 0 ∷ z)))) size (length pre)
      ≡ qname (pre ++ wire ls)
unfolding dotted wire
set_counts-wire zero size t pre tail z ls s a n tl h f = absurd (omega arith)
set_counts-wire (suc zero) size t pre tail z ls s a n tl h f = absurd (omega arith)
set_counts-wire (suc (suc f)) size t pre tail z [] s a n tl h g = absurd (omega arith)
set_counts-wire (suc (suc f)) size t pre tail z (l ∷ []) s a n (inl e) h g =
    rw (e, append-nil l)
      (set_counts-two f size t 0 pre l (0 ∷ z) s a.0 a.1 a.2 (inr refl)
          (omega (arith, length-append l []))
        ∙ unfold after_label in ap qname (append_assoc pre (length l ∷ l) (0 ∷ [])))
set_counts-wire (suc (suc f)) size t pre tail z (l ∷ []) s a n (inr e) h g =
    rw (e, append_assoc l (dot ∷ []) (0 ∷ 0 ∷ z))
      (set_counts-two f size t dot pre l (0 ∷ 0 ∷ z) s a.0 a.1 a.2 (inl refl)
          (omega (arith, length-append l []))
        ∙ unfold after_label in ap qname (append_assoc pre (length l ∷ l) (0 ∷ [])))
set_counts-wire (suc (suc f)) size t pre tail z (l ∷ k ∷ ls) s a n tl h g =
    let behind = dotted tail (k ∷ ls) ++ (0 ∷ 0 ∷ z) in
    let pre' = pre ++ (length l ∷ l) in
    let goes_on : (get_or behind 0 0 == 0) ≡ false =
      ground (arith, dotted-head tail k ls (0 ∷ 0 ∷ z) a.3) in
    let sized = length-append l (dot ∷ dotted [] (k ∷ ls)) in
    let continues : after_label f size pre' dot behind
        ≡ set_counts f (pre' ++ (dot ∷ behind)) size (length pre') =
      unfold after_label in rw goes_on in
    rw (append_assoc l (dot ∷ dotted tail (k ∷ ls)) (0 ∷ 0 ∷ z)) (
      set_counts-two f size t dot pre l behind s a.0 a.1 a.2 (inl refl) (omega arith)
      ∙ continues
      ∙ set_counts-wire f size dot pre' tail z (k ∷ ls) (inl refl) a.3 (omega arith) tl
          (omega (arith, length-append pre (length l ∷ l))) (omega arith)
      ∙ ap qname (append_assoc pre (length l ∷ l) (wire (k ∷ ls))))

pub length-dotted :
    (tail : Bytes) (ls : List Bytes) → AreLabels ls → length ls ≤ length (dotted tail ls)
unfolding dotted
length-dotted tail [] a = omega arith
length-dotted tail (l ∷ []) a = omega (arith, length-append l tail)
length-dotted tail (l ∷ k ∷ ls) a =
    omega (arith, length-dotted tail (k ∷ ls) a.3, length-append l (dot ∷ dotted tail (k ∷ ls)))

pub dotted-tail :
    (tail : Bytes) (ls : List Bytes) → 0 < length ls → dotted tail ls ≡ dotted [] ls ++ tail
unfolding dotted
dotted-tail tail [] n = absurd (omega arith)
dotted-tail tail (l ∷ []) n = ap (λ r. r ++ tail) (sym (append-nil l))
dotted-tail tail (l ∷ k ∷ ls) n =
    ap (λ r. l ++ (dot ∷ r)) (dotted-tail tail (k ∷ ls) (omega arith))
    ∙ sym (append_assoc l (dot ∷ dotted [] (k ∷ ls)) tail)
