-- ===== src/Sms/Remembered.antt =====
-- The id of the last message over a restart of the gateway.
use guble.Prelude.{
  ℕ, ◌≡◌, refl, ap, ◌∙◌, Bytes, bytes_comparable, ◌≟◌, ≟-refl, List, [], ◌∷◌, Option, none, some,
  Bool, true, false, ◌&&◌, ◌⊎◌, inl, inr, if◌then◌else◌,
}
use guble.KvStore.Interface.{KvStore, IsLawful, answer}
use guble.Sms.{
  sms_schema, ProxyEvent, received, route_closed, context_done, Gateway, remembered,
  set_last_sent_id, send, proxy_loop,
}

module _ (S : KvStore) (marshal : ℕ → Bytes) (unmarshal : Bytes → Option ℕ) where
  -- The key-value store has the id of the last message, or none where the id is 0.
  abbrev pub IsRemembered : Gateway S marshal unmarshal → Type 0
  IsRemembered g =
      ((S.get g.kv_store sms_schema g.topic).0 ≡ answer (some (marshal g.last_id_sent)))
      ⊎ (((S.get g.kv_store sms_schema g.topic).0 ≡ answer none) × (g.last_id_sent ≡ 0))

  module _ (lawful : IsLawful S) where
    remembered-IsRemembered :
        (id : ℕ) (g : Gateway S marshal unmarshal) (r : Bool × S.State)
        → (S.get r.1 sms_schema g.topic).0
          ≡ (if r.0 then answer (some (marshal id)) else (S.get g.kv_store sms_schema g.topic).0)
        → IsRemembered g
        → IsRemembered (remembered S marshal unmarshal id g r).1
    remembered-IsRemembered id g (true, s) e h = inl e
    remembered-IsRemembered id g (false, s) e (inl h) = inl (e ∙ h)
    remembered-IsRemembered id g (false, s) e (inr (h, z)) = inr (e ∙ h, z)

    same_key : (b : Bool) (schema key : Bytes) → (b && ((schema ≟ schema) && (key ≟ key))) ≡ b
    same_key true schema key = rw (≟-refl schema, ≟-refl key) refl
    same_key false schema key = refl

    pub set_last_sent_id-IsRemembered :
        (id : ℕ) (g : Gateway S marshal unmarshal)
        → IsRemembered g
        → IsRemembered (set_last_sent_id S marshal unmarshal id g).1
    unfolding set_last_sent_id
    set_last_sent_id-IsRemembered id g =
        remembered-IsRemembered id g (S.put g.kv_store sms_schema g.topic (marshal id)) (
          lawful.get-put g.kv_store sms_schema g.topic (marshal id) sms_schema g.topic
          ∙ ap
              (λ b.
                if b then answer (some (marshal id)) else (S.get g.kv_store sms_schema g.topic).0)
              (same_key (S.put g.kv_store sms_schema g.topic (marshal id)).0 sms_schema g.topic))

    module _ {E : Type 0} where
      pub proxy_loop-IsRemembered :
          (events : List (ProxyEvent E)) (g : Gateway S marshal unmarshal)
          → IsRemembered g
          → IsRemembered (proxy_loop S marshal unmarshal events g).1
      unfolding proxy_loop send
      proxy_loop-IsRemembered [] g h = h
      proxy_loop-IsRemembered (route_closed ∷ events) g h = h
      proxy_loop-IsRemembered (context_done ∷ events) g h = h
      proxy_loop-IsRemembered (received id (some e) ∷ events) g h = h
      proxy_loop-IsRemembered (received id none ∷ events) g h =
          proxy_loop-IsRemembered events (set_last_sent_id S marshal unmarshal id g).1
            (set_last_sent_id-IsRemembered id g h)
