-- ===== src/Authentik/Requests.antt =====
-- The addresses of the requests for an application.
use text.Mathlib.TextLemmas.{append_assoc}
use authentik_operator.Prelude.{ℕ, ◌<>◌, String, ◌≡◌, refl, sym, ap, Option, none, some, List}
use authentik_operator.Text.{index, take_text, drop_text}
use authentik_operator.Text.Laws.{count, index-append, take_text-count, drop_text-count}
use authentik_operator.Text.Escape.{utf8, path_escape, is_unreserved}
use authentik_operator.Text.Path.{
  path_unescape, path_unescape-path_escape, path_escape-Avoids, IsSegment, path_escape-IsSegment,
}
use authentik_operator.World.{Env}
use authentik_operator.Authentik.{Client, application_url}

-- What a server reads as the slug: the part up to the next slash, unescaped.
unfoldable pub read_segment : String → Option (List ℕ)
read_segment s = elim (index s "/") [ none ↦ none | some n ↦ some (path_unescape (take_text n s)) ]

module _ (env : Env) (c : Client) where
  abbrev pub applications : String
  applications = c.base_url <> "/api/v3/core/applications/"

  application_url-applications :
      (slug : String) → application_url env c slug ≡ applications <> (path_escape slug <> "/")
  application_url-applications slug =
      sym (append_assoc c.base_url "/api/v3/core/applications/" (path_escape slug <> "/"))

  end_of_segment :
      (slug : String) → index (path_escape slug <> "/") "/" ≡ some (count (path_escape slug))
  unfolding is_unreserved
  end_of_segment slug =
      index-append "/" "" (path_escape slug) "" (path_escape-Avoids b'/' refl refl slug)

  read_segment-path_escape :
      (slug : String) → read_segment (path_escape slug <> "/") ≡ some (utf8 slug)
  unfolding read_segment
  read_segment-path_escape slug =
      rw (read_segment, end_of_segment slug)
        (rw (take_text-count (path_escape slug) "/") (ap some (path_unescape-path_escape slug)))

  -- Whatever the slug, the address of the request for an application is that of the applications and then one path
  -- segment, with a slash after it, that is read back as the bytes of the slug and in which only those characters stand that a
  -- segment may hold, so it has no slash, question mark, number sign, blank or line break of
  -- the slug. A slug of dots is a segment of dots.
  pub application_url-slug :
      (slug : String)
      → (read_segment (drop_text (count applications) (application_url env c slug))
          ≡ some (utf8 slug))
        × ((segment : String) × IsSegment segment
            × (application_url env c slug ≡ applications <> (segment <> "/")))
  application_url-slug slug = (
    rw (application_url-applications slug, drop_text-count applications (path_escape slug <> "/"))
        (read_segment-path_escape slug),
    (path_escape slug, path_escape-IsSegment slug, application_url-applications slug),
  )
