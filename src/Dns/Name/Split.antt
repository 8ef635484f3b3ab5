-- ===== src/Dns/Name/Split.antt =====
-- The first loop of `host2qname` of src/dns/dnshttps.cc, on labels that are not too long.
use hcpp.Common.{
  ℕ, zero, suc, ◌+◌, ◌-◌, ◌≤◌, ◌<◌, false, List, [], ◌∷◌, ◌++◌, none, some, ◌≡◌, inl, inr, refl, ap,
  ap₂, ◌∙◌, arith, Bytes, length, take, drop, ltb, find, starts_with, append-nil, length-append,
  take-append_le, take-all, drop-append_ge,
}
use hcpp.Dns.Name.{dot, dns_max_label, split_host}
use hcpp.Dns.Name.Wire.{IsPlain, AreLabels, dotted, IsTail}

find-dot : (l rest : Bytes) → IsPlain l → find (l ++ (dot ∷ rest)) (dot ∷ []) ≡ some (length l)
unfolding find starts_with
find-dot [] rest p = ground arith
find-dot (c ∷ cs) rest p = ground (arith, find-dot cs rest p.2)

find_no_dot : (l : Bytes) → IsPlain l → find l (dot ∷ []) ≡ none
unfolding find starts_with
find_no_dot [] p = refl
find_no_dot (c ∷ cs) p = ground (arith, find_no_dot cs p.2)

split_host-some :
    (f n : ℕ) (s : Bytes)
    → find s (dot ∷ []) ≡ some n
    → 0 < length s
    → n ≤ 63
    → split_host (suc f) s ≡ take n s ++ (dot ∷ split_host f (drop (n + 1) s))
unfolding split_host
split_host-some f n [] e p h = absurd (omega arith)
split_host-some f n (c ∷ cs) e p h =
    let short : ltb dns_max_label n ≡ false = ground arith in rw (e, split_host, short)

-- A label that is followed by a dot is passed on as it is.
split_host-label :
    (f : ℕ) (l rest : Bytes)
    → IsPlain l
    → 0 < length l
    → length l ≤ 63
    → split_host (suc f) (l ++ (dot ∷ rest)) ≡ l ++ (dot ∷ split_host f rest)
split_host-label f l rest p n h =
    let all = l ++ (dot ∷ rest) in
    let taken : take (length l) all ≡ l =
      take-append_le (length l) l (dot ∷ rest) (omega arith)
      ∙ take-all (length l) l (omega arith) in
    let left : drop (length l + 1) all ≡ rest =
      drop-append_ge (length l + 1) l (dot ∷ rest) (omega arith)
      ∙ ap (λ n. drop n (dot ∷ rest)) {x = length l + 1 - length l} {y = 1} (omega arith) in
    split_host-some f (length l) all (find-dot l rest p)
      (omega (arith, length-append l (dot ∷ rest))) h
    ∙ ap₂ (λ (a b : Bytes). a ++ (dot ∷ split_host f b)) taken left

split_host-last : (f : ℕ) (l : Bytes) → IsPlain l → split_host (suc f) l ≡ l
unfolding split_host
split_host-last f [] p = refl
split_host-last f (c ∷ cs) p = rw (find_no_dot (c ∷ cs) p, split_host)

pub split_host-dotted :
    (f : ℕ) (tail : Bytes) (ls : List Bytes)
    → AreLabels ls
    → IsTail tail
    → length (dotted tail ls) < f
    → split_host f (dotted tail ls) ≡ dotted tail ls
unfolding dotted
split_host-dotted zero tail ls a t h = absurd (omega arith)
split_host-dotted (suc f) tail [] a t h = unfold split_host in refl
split_host-dotted (suc f) tail (l ∷ []) a (inl e) h = rw (e, append-nil l) (split_host-last f l a.0)
split_host-dotted (suc f) tail (l ∷ []) a (inr e) h =
    rw e (split_host-label f l [] a.0 a.1 a.2 ∙ ap (λ r. l ++ (dot ∷ r)) (split_nil f))
  where
    split_nil : (f : ℕ) → split_host f [] ≡ []
    split_nil zero = unfold split_host in refl
    split_nil (suc f) = unfold split_host in refl
split_host-dotted (suc f) tail (l ∷ k ∷ ls) a t h =
    split_host-label f l (dotted tail (k ∷ ls)) a.0 a.1 a.2
    ∙ ap (λ r. l ++ (dot ∷ r))
        (split_host-dotted f tail (k ∷ ls) a.3 t
          (omega (arith, length-append l (dot ∷ dotted tail (k ∷ ls)))))
