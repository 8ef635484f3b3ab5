-- ===== src/Dns/Query/Message.antt =====
-- The message of `make_query` of src/dns/dnshttps.cc, after RFC 1035, section 4.
use hcpp.Common.{ℕ, ◌/◌, ◌%◌, List, [], ◌∷◌, ◌++◌, Bytes}
use hcpp.Dns.Base64.Decode.{AreBytes}
use hcpp.Dns.Name.Wire.{wire}

-- All labels are bytes.
abbrev pub AllBytes : List Bytes → Type 0
AllBytes [] = Unit {0}
AllBytes (l ∷ ls) = AreBytes l × AllBytes ls

-- The message: identification, flags with only "recursion desired" set, one question.
abbrev pub message : ℕ → List Bytes → ℕ → Bytes
message now ls qtype =
    now % 65535 % 256
    ∷ now % 65535 / 256 % 256
    ∷ 1
    ∷ 0
    ∷ 0
    ∷ 1
    ∷ 0
    ∷ 0
    ∷ 0
    ∷ 0
    ∷ 0
    ∷ 0
    ∷ (wire ls ++ (qtype % 256 ∷ qtype / 256 % 256 ∷ 0 ∷ 1 ∷ []))
