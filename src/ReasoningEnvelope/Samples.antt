-- ===== src/ReasoningEnvelope/Samples.antt =====
-- An envelope with a signature and an empty text. A table of one entry stands for JSON and base64.
use agent_chatgpt_bridge.Common.{
  [], ◌∷◌, Option, none, some, ◌==◌, list_equality, number_equality, if◌then◌else◌, ◌≡◌, refl,
}
use agent_chatgpt_bridge.Js.{Text, codes, Value}
use agent_chatgpt_bridge.ReasoningEnvelope.{ReasoningEnvelope, to_value, encode, if_worth, decode}
use agent_chatgpt_bridge.ReasoningEnvelope.RoundTrip.{normal, decode-encode}

abbrev envelope : ReasoningEnvelope
envelope = record { sig = some (codes "s"); red = some (codes "a" ∷ codes "b" ∷ []); txt = some [] }

abbrev serialize : Value → Text
serialize v = codes "eyJ9"

abbrev deserialize : Text → Option Value
deserialize text = if text == codes "eyJ9" then some (to_value envelope) else none

-- The empty text is dropped.
decoded :
    decode deserialize (encode serialize envelope)
    ≡ some (record { sig = some (codes "s"); red = some (codes "a" ∷ codes "b" ∷ []); txt = none })
unfolding decode encode
decoded = refl

decode-encode_example : decode deserialize (encode serialize envelope) ≡ if_worth (normal envelope)
decode-encode_example = decode-encode serialize deserialize envelope refl
