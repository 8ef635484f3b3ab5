-- ===== src/Resolver/Cache.antt =====
-- The cache of src/dns.cpp: its entries as results come in and are removed.
use hcpp.Common.{
  false, List, [], ◌∷◌, none, some, ◌≡◌, refl, ap, ◌∙◌, arith, if◌then◌else◌, Bool-cases, inl, inr,
}
use hcpp.Resolver.{HostEdp, SlowDns, same, find_key, erase_key, cached, publish, remove}
use hcpp.Resolver.Single.{same_self, same_eq}

module _ {A : Type 0} where
  find_key-erase_key :
      (k h : HostEdp) (xs : List (HostEdp × A))
      → find_key k (erase_key h xs) ≡ (if same k h then none else find_key k xs)
  unfolding find_key erase_key
  find_key-erase_key k h [] = ground arith
  find_key-erase_key k h (x ∷ xs) = elim (Bool-cases (same k h)) [
    | inr other ↦ elim (Bool-cases (same h x.0)) [
      | inl there ↦
          let apart : same k x.0 ≡ false = rw (← same_eq h x.0 there) other in
          ground (arith, find_key-erase_key k h xs)
      | inr away ↦ ground (arith, find_key-erase_key k h xs)
    ]
    | inl equals ↦
        let e : same k x.0 ≡ same h x.0 = ap (λ i. same i x.0) (same_eq k h equals) in
        ground (arith, find_key-erase_key k h xs)
  ]

module _ {Edps : Type 0} where
  -- After a result is published, the cache holds for its key what publishing returns: the entry
  -- that was there before, or else the new result; other keys keep what they had.
  pub publish-cached :
      (h k : HostEdp) (el : Edps) (s : SlowDns Edps)
      → let t = publish h el s in
        (cached h t.1 ≡ some t.0)
        × ((old : Edps) → cached h s ≡ some old → t.0 ≡ old)
        × (cached h s ≡ none → t.0 ≡ el)
        × (same k h ≡ false → cached k t.1 ≡ cached k s)
  unfolding publish cached find_key
  publish-cached h k el s =
      (ground (arith, same_self h), λ old e. ground arith, λ e. ground arith, λ e. ground arith)

  -- After a key is removed, the cache has no entry for it, other keys keep what they had, and the
  -- table of running resolutions is the same.
  pub remove-cached :
      (h k : HostEdp) (s : SlowDns Edps)
      → (cached h (remove h s) ≡ none)
        × (same k h ≡ false → cached k (remove h s) ≡ cached k s)
        × ((remove h s).resolve_running ≡ s.resolve_running)
  unfolding remove cached
  remove-cached h k s = (
    find_key-erase_key h h s.edp_cache ∙ rw (same_self h) refl,
    λ e. find_key-erase_key k h s.edp_cache ∙ rw e refl,
    refl,
  )
