-- ===== src/Server/Unanswered.antt =====
-- What the loop makes of a service that sends nothing.
use hcpp.Common.{ℕ, [], true, ◌≡◌, refl, ap, codes}
use hcpp.Memory.{Memory}
use hcpp.Http.Headers.{header}
use hcpp.Http.Parsers.{new_response}
use hcpp.Http.Parsers.Lost.{response-nothing}
use hcpp.Server.{HttpHandler}
use hcpp.Server.Round.{
  ServiceKeeper, wants_close, passed, send_response, Loop, next, responded, with_response, reply,
}

module _ (C S : Memory) (sk : ServiceKeeper S) (hh : HttpHandler) where
  empty_response :
      (fuel : ℕ) (w : S.Mem) (ss : C.Mem)
      → S.alive w ≡ true
      → send_response C S sk hh fuel new_response w ss ≡ passed w (C.async_write_all [] ss)
  unfolding send_response wants_close header
  empty_response fuel w ss a = rw (send_response, a) refl

  -- When the read of a response gives nothing and nothing is buffered, of a service that was not
  -- closed, the loop goes on as after a response: it writes the empty text to the client, and no
  -- error.
  pub reply-nothing :
      (fuel : ℕ) (l : Loop C S sk hh) (ss : C.Mem) (w w1 : S.Mem)
      → S.async_load_until (codes "\r\n\r\n") w ≡ ([], w1)
      → S.get_some (S.remove_some 0 w1).1 ≡ []
      → S.alive (S.remove_some 0 (S.remove_some 0 w1).1).1 ≡ true
      → reply C S sk hh fuel l (passed ss w)
        ≡ next (record l {
          client = C.async_write_all [] ss;
          keeper = sk.keep (S.remove_some 0 (S.remove_some 0 w1).1).1 l.keeper;
        })
  unfolding reply with_response responded
  reply-nothing fuel l ss w w1 e f a =
      let (line, headers) = response-nothing S w w1 e f in
      let w2 = (S.remove_some 0 (S.remove_some 0 w1).1).1 in
      let r = ap (λ t. t.0.0) line in
      let n = ap (λ t. t.0.1) line in
      let left = ap (λ t. t.1) line in
      let parse = ap (λ t. t.0) headers in
      let last = ap (λ t. t.1) headers in
      rw (reply, r, n, left, parse, r, n, left, last, with_response, empty_response fuel w2 ss a)
        refl
