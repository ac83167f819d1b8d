-- ===== src/Security.antt =====
-- src-server/src/security.rs: the security headers of a response. `HeaderValue::from_str` of the
-- `http` crate is a parameter: it refuses some texts.
use bakpia_run.Prelude.{Bool, Option, none, some, List, if◌then◌else◌}
use bakpia_run.Text.{Text, codes}
use bakpia_run.Config.{SecurityConfig}
use bakpia_run.Http.{header}

-- A header with a configured value, left out where there is none or it is refused.
abbrev pub configured :
    (Text → Option Text) → Text → Option Text → List (Text × Text) → List (Text × Text)
configured from_str name none hs = hs
configured from_str name (some value) hs = elim (from_str value) [
  | none ↦ hs
  | some v ↦ header name v hs
]

abbrev pub switched : Text → Text → Bool → List (Text × Text) → List (Text × Text)
switched name value on hs = if on then header name value hs else hs

unfoldable pub apply_security_headers :
    (Text → Option Text) → List (Text × Text) → SecurityConfig → List (Text × Text)
apply_security_headers from_str builder c =
    let h1 = configured from_str (codes "X-Frame-Options") c.x_frame_options builder in
    let h2 =
      switched (codes "X-Content-Type-Options") (codes "nosniff") c.x_content_type_options h1 in
    let h3 = switched (codes "X-XSS-Protection") (codes "1; mode=block") c.x_xss_protection h2 in
    let h4 = configured from_str (codes "Content-Security-Policy") c.content_security_policy h3 in
    let h5 =
      configured from_str (codes "Strict-Transport-Security") c.strict_transport_security h4 in
    let h6 = configured from_str (codes "Referrer-Policy") c.referrer_policy h5 in
    configured from_str (codes "Permissions-Policy") c.permissions_policy h6
