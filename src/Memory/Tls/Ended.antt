-- ===== src/Memory/Tls/Ended.antt =====
-- What the proxy's loop makes of a TLS client after a response that ends with its service.
use hcpp.Common.{
  ℕ, zero, suc, true, false, [], Bytes, length, equal, ◌≡◌, refl, subst, Bool-cases, inl, inr,
}
use hcpp.Buffer
use hcpp.Memory.{Memory}
use hcpp.Memory.Connection.{Socket, Connection}
use hcpp.Memory.Tls.{ssl_write_all, ssl_sock_mem}
use hcpp.Http.Request.{Request}
use hcpp.Server.{HttpHandler}
use hcpp.Server.Round.{
  ServiceKeeper, Passed, passed, running, thrown, drain, all_that_comes, Loop, http_round, stopped,
}
use hcpp.Transfer.Until.{load_size}

module _ (net : Socket) (shutdown : net.Sock → net.Sock) (S : Memory) (sk : ServiceKeeper S)
    (hh : HttpHandler) where
  abbrev C : Memory
  C = ssl_sock_mem net shutdown

  write_nothing :
      (d : Bytes) (c : Connection net)
      → equal d [] ≡ true
      → (ssl_write_all net shutdown d c).buffer.write_ok ≡ false
  unfolding ssl_write_all
  write_nothing d c e = rw (ssl_write_all, e) refl

  -- A client to which nothing can be written any more.
  Closed : Passed C S sk hh S.Mem (Connection net) → Type 0
  Closed running = Unit {0}
  Closed thrown = Unit {0}
  Closed (passed w ss) = ss.buffer.write_ok ≡ false

  drain-Closed : (fuel : ℕ) (w : S.Mem) (ss : Connection net) → Closed (drain C S sk hh fuel w ss)
  unfolding drain Closed
  drain-Closed zero w ss = tt
  drain-Closed (suc fuel) w ss =
      let (str, w1) = S.async_load_some load_size w in
      let ss1 = ssl_write_all net shutdown str ss in
      elim (Bool-cases (equal str [])) [
        | inl e ↦ rw (drain, e) (write_nothing str ss e)
        | inr e ↦ rw (drain, e) (drain-Closed fuel (S.remove_some (length str) w1).1 ss1)
      ]

  all_that_comes-Closed :
      (fuel : ℕ) (w : S.Mem) (ss : Connection net) → Closed (all_that_comes C S sk hh fuel w ss)
  unfolding all_that_comes
  all_that_comes-Closed fuel w ss =
      let w1 = (S.merge_some w).1 in
      let str = S.get_some w1 in
      elim (Bool-cases (equal str [])) [
        | inl e ↦ rw (all_that_comes, e) (drain-Closed fuel w1 ss)
        | inr e ↦
            rw (all_that_comes, e)
              (drain-Closed fuel (S.remove_some (length str) w1).1
                (ssl_write_all net shutdown str ss))
      ]

  not_ok : (c : Connection net) → c.buffer.write_ok ≡ false → C.ok (C.reset c) ≡ false
  unfolding Buffer.ok Buffer.reset
  not_ok c e = elim (Bool-cases c.buffer.read_ok) [ inl r ↦ rw (r, e) refl | inr r ↦ rw r refl ]

  -- When a response without a length has been sent to a TLS client up to the end of its service,
  -- the next round of the loop stops: such a client gets no further answer on its connection.
  pub http_round-ended :
      (first : Request) (fuel more : ℕ) (w w1 : S.Mem) (l : Loop C S sk hh) (ss1 : Connection net)
      → all_that_comes C S sk hh fuel w l.client ≡ passed w1 ss1
      → http_round C S sk hh first more (record l { client = ss1 }) ≡ stopped (C.reset ss1)
  unfolding http_round Closed
  http_round-ended first fuel more w w1 l ss1 e =
      let closed = subst Closed e (all_that_comes-Closed fuel w l.client) in
      rw (http_round, not_ok ss1 closed) refl
