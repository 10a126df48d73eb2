-- ===== src/Api/Answers.antt =====
-- What a client reads: the texts of the answers of xdp-natd/src/api/expose.rs and health_check.rs. An
-- error's text is the field `message` of a JSON object, as the crate serde_json writes it.
use Prim.Native.String.{String}
use xdp_natd.Base.{ℕ, ◌≡◌, refl, ap, arith, Option, none, some, List, [], ◌∷◌}
use xdp_natd.Texts.Decimal
use xdp_natd.Texts.Printed.{show-AllDigits, AllDigits-Free}
use xdp_natd.Texts.Split.{Free, split, onto, split-onto, split-Free}
use xdp_natd.Texts.Address.{show_ipv4_onto}
use xdp_natd.Api.{
  Message, no_container, no_ports, not_exposed, Body, exposing, unexposed, healthy, message,
  internal_error,
}

abbrev pub message_text : Message → String
message_text (no_container ip) = onto "Container with IP " (show_ipv4_onto ip " doesn't exist")
message_text no_ports = "No available host ports left"
message_text (not_exposed port) =
    onto "Host port " (onto (Decimal.show port) " is not currently exposed")

abbrev pub text : Body → String
text (exposing container_port port) =
    onto "exposing container port "
      (onto (Decimal.show container_port) (onto " on host port " (Decimal.show port)))
text (unexposed port) = onto "Unexposed host port " (Decimal.show port)
text healthy = "OK"
text (message msg) = message_text msg
text internal_error = "An internal server error occurred"

-- The words of an answer.
abbrev pub words : Body → List String
words body = split b' ' (text body)

show-Free : (n : ℕ) → Free b' ' (Decimal.show n)
show-Free n = AllDigits-Free b' ' (Decimal.show n) (omega arith) (show-AllDigits n)

exposing-words :
    (container_port port : ℕ)
    → words (exposing container_port port)
      ≡ "exposing"
        ∷ "container"
        ∷ "port"
        ∷ Decimal.show container_port
        ∷ "on"
        ∷ "host"
        ∷ "port"
        ∷ Decimal.show port
        ∷ []
exposing-words container_port port =
    rw
      (
        split-onto b' ' (Decimal.show container_port) " " (onto "on host port " (Decimal.show port))
            (show-Free container_port) refl,
        split-Free b' ' (Decimal.show port) (show-Free port),
      )
      refl

abbrev pub last_word : List String → Option String
last_word [] = none
last_word (word ∷ []) = some word
last_word (word ∷ rest) = last_word rest

-- The last word of an answer to an exposure is the host port.
pub last_word-exposing :
    (container_port port : ℕ)
    → last_word (words (exposing container_port port)) ≡ some (Decimal.show port)
last_word-exposing container_port port = ap last_word (exposing-words container_port port)
