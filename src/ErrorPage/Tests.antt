-- ===== src/ErrorPage/Tests.antt =====
-- Examples for the error page.
use revproxy.Prelude.{
  ◌≡◌, ◌≤◌, ◌⊎◌, inl, refl, true, false, [], ◌∷◌, none, codes, Bytes, length, has_byte, bytes_eq,
  has_prefix, ℕ,
}
use revproxy.Host.{contains}
use revproxy.Routing.{resolve_dyn_proxy, resolve_proxy}
use revproxy.Reload.{via_pair}
use revproxy.Headers.{Outgoing}
use revproxy.Transport.{Transport, new_manager}
use revproxy.ErrorPage.{truncate, error_page, round_trip_dynamic, visit_error, domain_of}
use revproxy.ErrorPage.Header.{IsPlain, error_page-IsOneLine}
use revproxy.ErrorPage.Status.{round_trip_dynamic-status}
use revproxy.Config.{default_config}
use revproxy.Serve.{direct_name, via_name}
use revproxy.Samples.{a_config, a_route, a_url}

-- A line break becomes a blank and a byte that is not UTF-8 becomes three; the cut may fall inside a
-- rune.
truncated :
    truncate (b'a' ∷ 10 ∷ 255 ∷ 228 ∷ 189 ∷ 160 ∷ []) 7
    ≡ b'a' ∷ 32 ∷ 239 ∷ 191 ∷ 189 ∷ 228 ∷ 189 ∷ []
unfolding truncate
truncated = refl

abbrev out : Outgoing
out = record { url = a_url (codes "timeout.com") (codes "/"); host = []; header = [] }

error_page-IsOneLine_example :
    let header = (error_page a_config a_route false none out (codes "no such host")).error_header in
    ((has_byte 10 header ≡ false) × (has_byte 13 header ≡ false))
    × ((length header ≤ 200)
        × (IsPlain (codes "no such host")
            → length (codes "no such host") ≤ 200
            → header ≡ codes "no such host"))
error_page-IsOneLine_example =
    error_page-IsOneLine a_config a_route false none out (codes "no such host")

abbrev refusing : Transport → Outgoing → Bytes ⊎ ℕ
refusing t o = inl (codes "refused")

abbrev refused_text : Bytes
refused_text = visit_error (codes "timeout.com") direct_name (codes "refused")

round_trip_dynamic-status_example :
    (error_page a_config a_route true none out refused_text).status ≡ 504
unfolding contains has_prefix domain_of round_trip_dynamic via_pair resolve_dyn_proxy resolve_proxy
    bytes_eq default_config via_name
round_trip_dynamic-status_example =
    round_trip_dynamic-status refusing a_config a_route new_manager out none refused_text refl refl
