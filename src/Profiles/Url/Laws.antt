-- ===== src/Profiles/Url/Laws.antt =====
-- The addresses that are derived from a base URL and from a redirect URI.
use native.Mathlib.Nat.{add_assoc}
use text.Mathlib.TextLemmas.{append_assoc, cons-append}
use authentik_operator.Prelude.{ℕ, ◌+◌, String, ◌<>◌, ◌≡◌, refl, ap, ◌∙◌, some, none}
use authentik_operator.Text.{index, take_text, drop_text}
use authentik_operator.Text.Laws.{
  Avoids, count, index-append, index-none, drop_text-count, drop_text-count_add,
  take_text-count_add, take_text-count,
}
use authentik_operator.Profiles.Url.{root_url_of}

drop_colon : (t : String) → drop_text 3 ("://" <> t) ≡ t
unfolding count
drop_colon t = drop_text-count "://" t

take_colon : (n : ℕ) (t : String) → take_text (3 + n) ("://" <> t) ≡ "://" <> take_text n t
unfolding count
take_colon n t = take_text-count_add "://" t n

root_url_of_path :
    (uri : String) (n m : ℕ)
    → index uri "://" ≡ some n
    → index (drop_text (n + 3) uri) "/" ≡ some m
    → root_url_of uri ≡ take_text (n + 3 + m) uri <> "/"
unfolding root_url_of
root_url_of_path uri n m p q = rw (root_url_of, p, q) refl

root_url_of_host :
    (uri : String) (n : ℕ)
    → index uri "://" ≡ some n
    → index (drop_text (n + 3) uri) "/" ≡ none
    → root_url_of uri ≡ uri <> "/"
unfolding root_url_of
root_url_of_host uri n p q = rw (root_url_of, p, q) refl

module _ (scheme host : String) (no_colon : Avoids b':' scheme) (no_slash : Avoids b'/' host) where
  index_scheme : (t : String) → index (scheme <> ("://" <> t)) "://" ≡ some (count scheme)
  index_scheme t =
      ap (λ u. index (scheme <> u) "://") (cons-append ":" "//" t)
      ∙ index-append ":" "//" scheme t no_colon

  drop_scheme : (t : String) → drop_text (count scheme + 3) (scheme <> ("://" <> t)) ≡ t
  drop_scheme t = drop_text-count_add scheme ("://" <> t) 3 ∙ drop_colon t

  index_path : (path : String) → index (host <> ("/" <> path)) "/" ≡ some (count host)
  index_path path =
      ap (λ u. index (host <> u) "/") (cons-append "/" "" path)
      ∙ index-append "/" "" host path no_slash

  take_root :
      (path : String)
      → take_text (count scheme + 3 + count host) (scheme <> ("://" <> (host <> ("/" <> path))))
        ≡ scheme <> ("://" <> host)
  take_root path = rw (add_assoc (count scheme) 3 (count host)) (
      rw (take_text-count_add scheme ("://" <> (host <> ("/" <> path))) (3 + count host)) (
        rw (take_colon (count host) (host <> ("/" <> path)))
          (rw (take_text-count host ("/" <> path)) refl)))

  root_slash : (scheme <> ("://" <> host)) <> "/" ≡ scheme <> ("://" <> (host <> "/"))
  root_slash =
      append_assoc scheme ("://" <> host) "/" ∙ ap (λ u. scheme <> u) (append_assoc "://" host "/")

  -- The root of a redirect URI `scheme://host/path`, and of `scheme://host`, is `scheme://host/`, where the
  -- scheme holds no colon and the host no slash.
  pub root_url_of_lem :
      (path : String)
      → (root_url_of (scheme <> ("://" <> (host <> ("/" <> path))))
          ≡ scheme <> ("://" <> (host <> "/")))
        × (root_url_of (scheme <> ("://" <> host)) ≡ scheme <> ("://" <> (host <> "/")))
  root_url_of_lem path = (
    root_url_of_path _ (count scheme) (count host) (index_scheme (host <> ("/" <> path)))
          (ap (λ u. index u "/") (drop_scheme (host <> ("/" <> path))) ∙ index_path path)
        ∙ ap (λ u. u <> "/") (take_root path)
        ∙ root_slash,
    root_url_of_host _ (count scheme) (index_scheme host)
          (ap (λ u. index u "/") (drop_scheme host) ∙ index-none "/" "" host no_slash)
        ∙ root_slash,
  )
