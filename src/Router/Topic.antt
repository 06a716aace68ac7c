-- ===== src/Router/Topic.antt =====
-- matchesTopic of server/router/router.go, and the partition of a path (protocol/path.go).
mod Examples
use guble.Prelude.{
  ℕ, zero, suc, ◌+◌, ◌<◌, ◌≡◌, refl, ap, sym, ◌∙◌, ◌↔◌, ◌⊎◌, inl, inr, Bytes, List, [], ◌∷◌, ◌++◌,
  append-nil, Option, none, some, Bool, true, false, ◌&&◌, ◌||◌, nat_eq, nat_eq_iff, ltb, arith,
  length, length-append, get_elem?, has_prefix, has_prefix-append, has_prefix-split, &&-eq-true,
  Bool-cases,
}

abbrev pub slash : ℕ
slash = 47

-- string[i] == c, behind a test that i is within the string
abbrev pub byte_is : Option ℕ → ℕ → Bool
byte_is none c = false
byte_is (some b) c = nat_eq b c

unfoldable pub matches_topic : Bytes → Bytes → Bool
matches_topic message route =
    has_prefix message route
    && (nat_eq (length message) (length route)
        || (ltb (length route) (length message)
            && byte_is (get_elem? message (length route)) slash))

get_elem?-behind : (xs ys : Bytes) → get_elem? (xs ++ ys) (length xs) ≡ get_elem? ys 0
get_elem?-behind [] ys = refl
get_elem?-behind (x ∷ xs) ys = get_elem?-behind xs ys

-- Below a route that is a prefix, what decides is the rest.
abbrev rest_fits : Bytes → Bool
rest_fits [] = true
rest_fits (b ∷ rest) = nat_eq b slash

matches_topic-append : (route rest : Bytes) → matches_topic (route ++ rest) route ≡ rest_fits rest
unfolding matches_topic
matches_topic-append route [] =
    rw (has_prefix-append route [], length-append route [], get_elem?-behind route []) ground
      (arith)
matches_topic-append route (b ∷ rest) =
    rw
      (
        has_prefix-append route (b ∷ rest),
        length-append route (b ∷ rest),
        get_elem?-behind route (b ∷ rest),
      )
      ground (arith)

-- A route matches a message's topic exactly when it is the topic, or the topic continues it with
-- a slash.
pub matches_topic_iff :
    (message route : Bytes)
    → (matches_topic message route ≡ true)
      ↔ ((message ≡ route) ⊎ ((rest : Bytes) × (message ≡ route ++ (slash ∷ rest))))
matches_topic_iff message route = (forwards, backwards)
  where
    cases :
        (rest : Bytes)
        → message ≡ route ++ rest
        → matches_topic message route ≡ true
        → (message ≡ route) ⊎ ((more : Bytes) × (message ≡ route ++ (slash ∷ more)))
    cases [] e h = inl (e ∙ append-nil route)
    cases (b ∷ rest) e h =
        let is_slash = (nat_eq_iff b slash).0 (
          sym (matches_topic-append route (b ∷ rest))
          ∙ ap (λ m. matches_topic m route) (sym e)
          ∙ h) in
        inr (rest, e ∙ ap (λ c. route ++ (c ∷ rest)) is_slash)

    forwards :
        matches_topic message route ≡ true
        → (message ≡ route) ⊎ ((rest : Bytes) × (message ≡ route ++ (slash ∷ rest)))
    forwards h =
        let (rest, e) =
          has_prefix-split message route
            (unfold matches_topic in (&&-eq-true (has_prefix message route) _ h).0) in
        cases rest e h

    backwards :
        (message ≡ route) ⊎ ((rest : Bytes) × (message ≡ route ++ (slash ∷ rest)))
        → matches_topic message route ≡ true
    backwards (inl e) =
        ap (λ m. matches_topic m route) (e ∙ sym (append-nil route)) ∙ matches_topic-append route []
    backwards (inr (rest, e)) =
        ap (λ m. matches_topic m route) e ∙ matches_topic-append route (slash ∷ rest)
