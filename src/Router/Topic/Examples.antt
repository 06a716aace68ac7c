-- ===== src/Router/Topic/Examples.antt =====
-- Topics at concrete paths.
use guble.Prelude.{◌≡◌, refl, codes, true, false, has_prefix}
use guble.Router.Topic.{matches_topic}

below : matches_topic (codes "/news/sports") (codes "/news") ≡ true
unfolding matches_topic has_prefix
below = refl

beside : matches_topic (codes "/newspaper") (codes "/news") ≡ false
unfolding matches_topic has_prefix
beside = refl
