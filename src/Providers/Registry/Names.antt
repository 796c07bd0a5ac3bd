-- ===== src/Providers/Registry/Names.antt =====
-- src/providers/registry.ts: which providers a registry can have.
use agent_chatgpt_bridge.Common.{
  true, false, ◌||◌, List, [], ◌∷◌, ◌++◌, ◌==◌, list_equality, number_equality, ◌≡◌, ◌↔◌, refl, sym,
  ap, ◌∙◌, subst, arith, All, IsDistinct, contains, count-append, contains-count, count-contains,
  if-both, beq_self, list_beq_iff,
}
use agent_chatgpt_bridge.Errors.{Thrown, Result, ok, err, ok_injective}
use agent_chatgpt_bridge.Js.{Text}
use agent_chatgpt_bridge.Providers.Registry.{
  ConversationProvider, router_name, is_blank_name, has, register, register_next, register_all,
}

module _ {W : Type 0} where
  abbrev pub names : List (ConversationProvider W) → List Text
  names [] = []
  names (p ∷ ps) = p.name ∷ names ps

  -- The names are distinct, and none is empty or the router's.
  abbrev pub IsRegistry : List (ConversationProvider W) → Type 0
  IsRegistry ps =
      IsDistinct (names ps) × All (λ p. (is_blank_name p.name || p.name == router_name) ≡ false) ps

  names-append : (ps qs : List (ConversationProvider W)) → names (ps ++ qs) ≡ names ps ++ names qs
  names-append [] qs = refl
  names-append (p ∷ ps) qs = ap (λ rest. p.name ∷ rest) (names-append ps qs)

  has-names :
      (ps : List (ConversationProvider W)) (name : Text) → has ps name ≡ contains name (names ps)
  has-names [] name = refl
  has-names (p ∷ ps) name = ap (λ b. p.name == name || b) (has-names ps name)

  All-append :
      (P : ConversationProvider W → Type 0) (ps qs : List (ConversationProvider W))
      → All P ps
      → All P qs
      → All P (ps ++ qs)
  All-append P [] qs hp hq = hq
  All-append P (p ∷ ps) qs hp hq = (hp.0, All-append P ps qs hp.1 hq)

  append_assoc :
      (ps : List (ConversationProvider W)) (p : ConversationProvider W)
      (qs : List (ConversationProvider W))
      → (ps ++ p ∷ []) ++ qs ≡ ps ++ p ∷ qs
  append_assoc [] p qs = refl
  append_assoc (q ∷ ps) p qs = ap (λ rest. q ∷ rest) (append_assoc ps p qs)

  append_nil : (ps : List (ConversationProvider W)) → ps ++ [] ≡ ps
  append_nil [] = refl
  append_nil (p ∷ ps) = ap (λ rest. p ∷ rest) (append_nil ps)

  -- One registration more.
  IsRegistry-append :
      (ps : List (ConversationProvider W)) (p : ConversationProvider W)
      → IsRegistry ps
      → (is_blank_name p.name || p.name == router_name) ≡ false
      → has ps p.name ≡ false
      → IsRegistry (ps ++ p ∷ [])
  IsRegistry-append ps p (distinct, fit) named new = (
    λ a. rw (names-append ps (p ∷ [])) (
        ground (
          arith,
          distinct a,
          count-append a (names ps) (p.name ∷ []),
          count-contains a (names ps),
          list_beq_iff p.name a,
          has-names ps p.name,
          new,
        )),
    All-append _ ps (p ∷ []) fit (named, tt),
  )

  All-middle :
      (P : ConversationProvider W → Type 0) (ps : List (ConversationProvider W))
      (p : ConversationProvider W) (qs : List (ConversationProvider W))
      → All P (ps ++ p ∷ qs)
      → P p
  All-middle P [] p qs h = h.0
  All-middle P (q ∷ ps) p qs h = All-middle P ps p qs h.1

  -- What registering the providers one after another comes to.
  abbrev Outcome :
      List (ConversationProvider W) → Result Thrown (List (ConversationProvider W)) → Type 0
  Outcome ps (ok r) = (r ≡ ps) × IsRegistry ps
  Outcome ps (err e) = IsRegistry ps → ⊥

  taken-Outcome :
      (acc : List (ConversationProvider W)) (p : ConversationProvider W)
      (ps : List (ConversationProvider W))
      → has acc p.name ≡ true
      → IsRegistry (acc ++ p ∷ ps)
      → ⊥
  taken-Outcome acc p ps h (distinct, fit) = ground (
    arith,
    rw (names-append acc (p ∷ ps)) at distinct p.name,
    count-append p.name (names acc) (p.name ∷ names ps),
    contains-count p.name (names acc),
    has-names acc p.name,
    beq_self p.name,
    h,
  )

  register_all-Outcome :
      (ps acc : List (ConversationProvider W))
      → IsRegistry acc
      → Outcome (acc ++ ps) (register_all ps acc)
  unfolding register_all register
  register_all-Outcome [] acc fit =
      subst (λ qs. Outcome qs (ok acc)) (sym (append_nil acc)) (refl, fit)
  register_all-Outcome (p ∷ ps) acc fit =
      let after = λ (r : Result Thrown (List (ConversationProvider W))).
        Outcome (acc ++ p ∷ ps) (register_next r (register_all ps)) in
      if-both after (is_blank_name p.name || p.name == router_name) _ _
        (λ bad registry. absurd (ground (arith, bad, All-middle _ acc p ps registry.1)))
        (λ named.
          if-both after (has acc p.name) _ _ (λ taken. taken-Outcome acc p ps taken)
            (λ new.
              subst (λ qs. Outcome qs (register_all ps (acc ++ p ∷ []))) (append_assoc acc p ps)
                (register_all-Outcome ps (acc ++ p ∷ []) (IsRegistry-append acc p fit named new))))

  Outcome-iff :
      (ps r : List (ConversationProvider W))
      (result : Result Thrown (List (ConversationProvider W)))
      → Outcome ps result
      → (result ≡ ok r) ↔ ((r ≡ ps) × IsRegistry ps)
  Outcome-iff ps r (ok q) (same, fit) =
      (λ h. (sym (ok_injective {E = Thrown} _ _ h) ∙ same, fit), λ h. ap ok (same ∙ sym h.0))
  Outcome-iff ps r (err e) refused = (λ h. cc, λ h. absurd (refused h.1))

-- The constructor's loop registers all of the providers, in their order, exactly if their names are
-- distinct, none is empty, and none is `model-router`; otherwise it throws.
pub register_all-IsRegistry :
    {W : Type 0} (ps r : List (ConversationProvider W))
    → (register_all ps [] ≡ ok r) ↔ ((r ≡ ps) × IsRegistry ps)
register_all-IsRegistry ps r =
    Outcome-iff ps r (register_all ps []) (register_all-Outcome ps [] (λ a. omega arith, tt))
