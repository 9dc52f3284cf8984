-- ===== src/Oauth/Grants/Shown.antt =====
-- What userinfo shows of a token that an exchange has returned.
use metafusion_auth.Database.{Database}
