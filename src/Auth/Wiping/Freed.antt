-- ===== src/Auth/Wiping/Freed.antt =====
-- Which buffers newt_auth_get_token frees, and what they hold then.
use newt_esp.Auth.Request.{HttpEnv, Posted}
use newt_esp.Auth.Response.{Response}
use newt_esp.Auth.Token.{zeros}
use newt_esp.Base.{Bool, true, false, List, [], ◌∷◌, Option, none, some, length, Bytes}
use newt_esp.Extern.{Cjson}

-- A buffer that is cleared: as many zeros as it held bytes.
abbrev pub blank : Bytes → Bytes
blank b = zeros (length b)

abbrev pub blanks : Option Bytes → List Bytes
blanks none = []
blanks (some b) = blank b ∷ []

module _ (c : Cjson) (env : HttpEnv) where
  -- The freed buffers, the body first. Without memory for the URL no request is made.
  abbrev pub freed_of : Bool → Bytes → Posted → List Bytes
  freed_of true body posted = blank body ∷ blanks posted.response.buf
  freed_of false body posted = blank body ∷ []
