-- ===== src/ReasoningEnvelope/RoundTrip.antt =====
-- src/responses/reasoning-envelope.ts: what comes back of an envelope.
use agent_chatgpt_bridge.Common.{
  true, List, [], ◌∷◌, ◌++◌, map, Option, none, some, number_equality, if◌then◌else◌, ◌≡◌, refl, ap,
  ◌∙◌, arith, beq_self,
}
use agent_chatgpt_bridge.Js.{Text, starts_with, Value, str, from_list, end_fields}
use agent_chatgpt_bridge.ReasoningEnvelope.{
  ReasoningEnvelope, prefix, to_value, encode, non_empty, strings_of, if_worth, read_fields,
  text_field, texts_field, read_value, slice, decode,
}

-- An envelope without an empty list and an empty text.
abbrev pub normal : ReasoningEnvelope → ReasoningEnvelope
normal e = record { sig = e.sig; red = non_empty e.red; txt = non_empty e.txt }

starts_with-append : (p text : Text) → starts_with p (p ++ text) ≡ true
starts_with-append [] text = refl
starts_with-append (c ∷ cs) text = ground (arith, beq_self c, starts_with-append cs text)

slice-append : (p text : Text) → slice p (p ++ text) ≡ text
slice-append [] text = refl
slice-append (c ∷ cs) text = slice-append cs text

strings_of-from_list : (ts : List Text) → strings_of (from_list (map str ts)) ≡ ts
strings_of-from_list [] = refl
strings_of-from_list (t ∷ ts) = ap (λ rest. t ∷ rest) (strings_of-from_list ts)

abbrev envelope : Option Text → Option (List Text) → Option Text → ReasoningEnvelope
envelope sig red txt = record { sig = sig; red = red; txt = txt }

with_texts :
    (sig : Option Text) (ts : List Text) (txt : Option Text)
    → envelope sig (non_empty (some (strings_of (from_list (map str ts))))) txt
      ≡ envelope sig (non_empty (some ts)) txt
with_texts sig ts txt = ap (λ k. envelope sig (non_empty (some k)) txt) (strings_of-from_list ts)

fields-normal :
    (sig : Option Text) (red : Option (List Text)) (txt : Option Text)
    → read_fields (text_field "sig" sig (texts_field red (text_field "txt" txt end_fields)))
      ≡ normal (envelope sig red txt)
fields-normal none none none = refl
fields-normal none none (some x) = refl
fields-normal none (some r) none = with_texts _ r _
fields-normal none (some r) (some x) = with_texts _ r _
fields-normal (some s) none none = refl
fields-normal (some s) none (some x) = refl
fields-normal (some s) (some r) none = with_texts _ r _
fields-normal (some s) (some r) (some x) = with_texts _ r _

-- An envelope that is encoded, and decoded from what is replayed, comes back without an empty `red` and
-- an empty `txt`, if it has a `sig` or a `txt` that is not empty or a `red` that is not, and otherwise
-- nothing comes back; where JSON, UTF-8 and base64 give its value back.
pub decode-encode :
    (serialize : Value → Text) (deserialize : Text → Option Value) (e : ReasoningEnvelope)
    → deserialize (serialize (to_value e)) ≡ some (to_value e)
    → decode deserialize (encode serialize e) ≡ if_worth (normal e)
unfolding decode encode
decode-encode serialize deserialize e h =
    let text = serialize (to_value e) in
    ap (λ b. if b then read_value (deserialize (slice prefix (prefix ++ text))) else none)
      (starts_with-append prefix text)
    ∙ ap (λ k. read_value (deserialize k)) (slice-append prefix text)
    ∙ ap read_value h
    ∙ ap if_worth (fields-normal e.sig e.red e.txt)
