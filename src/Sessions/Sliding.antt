-- ===== src/Sessions/Sliding.antt =====
-- A session from its token to the user it names, and the sliding expiration.
use secure_voting_platform.Prelude.Text.{Text}
use secure_voting_platform.Json.{Json}
