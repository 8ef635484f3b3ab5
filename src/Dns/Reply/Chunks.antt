-- ===== src/Dns/Reply/Chunks.antt =====
-- The chunks of a reply in `parse_rfc8484` of src/dns/dnshttps.cc, and their fuel.
use hcpp.Common.{
  leb, codes, ◌≢◌, ◌⊎◌, take, ℕ, zero, suc, ◌+◌, ◌-◌, ◌<◌, Bool, false, ◌||◌, ◌≡◌, inl, inr, refl,
  arith, Bytes, length, drop, ltb, ◌==◌, Bool-cases, Option-cases,
}
use hcpp.Common.{find, strtoul}
use hcpp.Dns.Reply.{Chunked, unfinished, refused, message, chunk_before, dns_reply, chunks, crlf}

less_behind :
    (size idx n cl fuel : ℕ) (b : Bool)
    → size - idx < suc fuel
    → (b || ltb size (idx + n + 2 + cl + 2)) ≡ false
    → size - (idx + n + 2 + cl + 2) < fuel
less_behind size idx n cl fuel b h e = ground arith

behind_header : (size i : ℕ) → leb size (i + 4) ≡ false → size - (i + 4) < size
behind_header size i h = ground arith

pub Chunked-cases :
    (r : Chunked) → (r ≡ unfinished) ⊎ ((r ≡ refused) ⊎ ((s : Bytes) × (r ≡ message s)))
Chunked-cases unfinished = inl refl
Chunked-cases refused = inr (inl refl)
Chunked-cases (message s) = inr (inr (s, refl))

chunk_before-ends : (s : Bytes) (r : Chunked) → r ≢ unfinished → chunk_before s r ≢ unfinished
unfolding chunk_before
chunk_before-ends s unfinished h = absurd (h refl)
chunk_before-ends s refused h = ground arith
chunk_before-ends s (message t) h = ground arith

-- Fuel above what is left of the reply is enough.
pub chunks-ends :
    (fuel : ℕ) (reply : Bytes) (idx : ℕ)
    → length reply - idx < fuel
    → chunks fuel reply idx ≢ unfinished
unfolding chunks
chunks-ends zero reply idx h = absurd (omega arith)
chunks-ends (suc fuel) reply idx h = elim (Option-cases (find (drop idx reply) crlf)) [
  | inl e ↦ rw (chunks, e) (ground arith)
  | inr (n, e) ↦
      let cl = strtoul 16 (drop idx reply) in
      elim (Bool-cases (cl == 0)) [
        | inl z ↦ rw (chunks, e, z) (ground arith)
        | inr nz ↦ elim (Bool-cases (ltb 65535 cl || ltb (length reply) (idx + n + 2 + cl + 2))) [
          | inl bad ↦ rw (chunks, e, nz, bad) (ground arith)
          | inr fine ↦
              rw (chunks, e, nz, fine)
                (chunk_before-ends (take cl (drop (idx + n + 2) reply)) _ (
                  chunks-ends fuel reply (idx + n + 2 + cl + 2)
                    (less_behind (length reply) idx n cl fuel (ltb 65535 cl) h fine)))
        ]
      ]
]

pub dns_reply-ends :
    (reply : Bytes) (content_idx cl : ℕ) → dns_reply reply content_idx cl ≢ unfinished
unfolding dns_reply
dns_reply-ends reply content_idx cl = elim (Bool-cases (ltb 0 cl)) [
  | inl given ↦ elim (Bool-cases (ltb (length (drop content_idx reply)) cl)) [
    | inl short ↦ rw (dns_reply, given, short) (ground arith)
    | inr long ↦ rw (dns_reply, given, long) (ground arith)
  ]
  | inr absent ↦ elim (Option-cases (find reply (codes "\r\n\r\n"))) [
    | inl e ↦ rw (dns_reply, absent, e) (ground arith)
    | inr (i, e) ↦ elim (Bool-cases (leb (length reply) (i + 4))) [
      | inl none_left ↦ rw (dns_reply, absent, e, none_left) (ground arith)
      | inr left ↦
          rw (dns_reply, absent, e, left)
            (chunks-ends (length reply) reply (i + 4) (behind_header (length reply) i left))
    ]
  ]
]
