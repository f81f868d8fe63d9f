-- ===== src/Admin/Site.antt =====
-- What the administration server does with a path, `New`, `ServeHTTP` and `serveFile` of
-- internal/admin/server.go. The embedded files are a parameter: `none` where there are none.
use revproxy.Prelude.{
  ℕ, Bool, [], ◌++◌, Option, none, some, if◌then◌else◌, Bytes, codes, bytes_eq, is_empty,
  has_prefix, trim_prefix, trim_right,
}

-- `New` on the path of the configuration.
unfoldable pub site_prefix : Bytes → Bytes
site_prefix p = trim_right b'/' (if is_empty p then codes "/__admin" else p)

-- `calls` is the part of the path behind `/api/`.
pub data Page : Type 0 where
  redirect : Bytes → Page
  calls : Bytes → Page
  file : Bytes → Bytes → Page
  not_found : Page

abbrev pub index_page : Page
index_page = file (codes "index.html") (codes "text/html; charset=utf-8")

unfoldable pub page_at : Bytes → Page
page_at path =
    if has_prefix (codes "/api/") path
    then calls (trim_prefix (codes "/api/") path)
    else if bytes_eq path (codes "/index.html")
    then index_page
    else if bytes_eq path (codes "/app.js")
    then file (codes "app.js") (codes "application/javascript; charset=utf-8")
    else if bytes_eq path (codes "/style.css")
    then file (codes "style.css") (codes "text/css; charset=utf-8")
    else not_found

-- ServeHTTP
unfoldable pub serve_site : Bytes → Bytes → Page
unfolding page_at
serve_site prefix url_path =
    let path = trim_prefix prefix url_path in
    if is_empty path
    then redirect (prefix ++ codes "/")
    else page_at (if bytes_eq path (codes "/") then codes "/index.html" else path)

-- An embedded file: whether `Stat` succeeds on one that can be sought in, and its content, `none`
-- where reading fails.
pub record WebFile : Type 0 where
  pub sized : Bool
  pub content : Option Bytes

-- The status and the body of the answer.
unfoldable pub serve_file : Option (Bytes → Option WebFile) → Bytes → ℕ × Bytes
serve_file none name = (404, [])
serve_file (some web) name = elim (web name) [
  | none ↦ (404, [])
  | some f ↦ elim f.content [
    | some text ↦ (200, text)
    | none ↦ if f.sized then (200, []) else (500, [])
  ]
]
