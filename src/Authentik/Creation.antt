-- ===== src/Authentik/Creation.antt =====
-- What a creation of a token by `CreateAPIToken` that succeeds has done.
use authentik_operator.Prelude.{
  String, ◌<>◌, ◌≡◌, refl, ap, sym, ◌∙◌, [], ◌∷◌, inl, inr, ◌⊎◌, none, some, arith, nat_eq, not,
  if◌then◌else◌, true,
}
use authentik_operator.Certs.{Bytes}
use authentik_operator.Errors.{ok, Result-cases, errorf, num, bytes}
use authentik_operator.Responses.{TokenCreateRequest}
use authentik_operator.Text.Escape.{path_escape, utf8}
use authentik_operator.World.{Call, World, Env, HttpRequest, HttpResponse}
use authentik_operator.World.Effects.{Exec, ◌>>=◌, ◌>>◌, fail, lift, pure, wrapping, carried}
use authentik_operator.Authentik.{
  Client, limited, contains_bytes, authorized, get_request, view_token_key, check_created,
  create_api_token,
}

-- A sequence that succeeds.
bind-ok :
    {A B : Type 0} (m : Exec A) (f : A → Exec B) (w : World) (b : B)
    → ((m >>= f) w).0 ≡ ok b
    → (a : A) × ((m w).0 ≡ ok a) × ((m >>= f) w ≡ f a (m w).1)
bind-ok m f w b e = elim (Result-cases (m w).0) [
  | inl (a, p) ↦ (a, p, rw p refl)
  | inr (x, p) ↦ let bad = rw p at e in absurd (ground (arith, bad))
]

module _ (env : Env) (c : Client) where
  abbrev pub sent : World → HttpRequest → HttpRequest
  sent w q = record q { token = some (carried env c.token w) }

  abbrev pub token_request : String → TokenCreateRequest
  token_request id = record {
    identifier = id;
    intent = "api";
    description = "AuthentikOperator service token";
  }

  abbrev pub post_request : Bytes → HttpRequest
  post_request body = record {
    method = "POST";
    url = c.base_url <> "/api/v3/core/tokens/";
    token = none;
    content_type = some "application/json";
    body = body;
    deadline = none;
  }

  abbrev pub view_request : String → HttpRequest
  view_request id =
      get_request env c (c.base_url <> ("/api/v3/core/tokens/" <> (path_escape id <> "/view_key/")))

  authorized-ok :
      (making sending : String) (q : HttpRequest) (w : World) (resp : HttpResponse)
      → (authorized env c making sending q w).0 ≡ ok resp
      → (env.send w.trace c.tls (sent w q) ≡ ok resp)
        × ((authorized env c making sending q w).1.trace ≡ Call.http c.tls (sent w q) ∷ w.trace)
  unfolding authorized
  authorized-ok making sending q w resp e = ground arith

  -- The key was shown, with status 200, as the answer to the last request.
  pub record Shown (id key : String) (start end : World) : Type 0 where
    pub resp : HttpResponse
    pub answer : env.send start.trace c.tls (sent start (view_request id)) ≡ ok resp
    pub status : resp.status ≡ 200
    pub decoded : env.json.view_key resp.body ≡ ok (record { key = key })
    pub last : end.trace ≡ Call.http c.tls (sent start (view_request id)) ∷ start.trace

  -- What `viewTokenKey` does with an answer.
  abbrev answer_key : HttpResponse → Exec String
  answer_key resp =
      if not (nat_eq resp.status 200)
      then fail
          (errorf "view_key returned %d: %s" (num resp.status ∷ bytes (limited resp.body) ∷ []))
      else do
        key_resp ← wrapping "decoding view_key response: %w" [] (lift (env.json.view_key resp.body))
        pure key_resp.key

  answer_key-ok :
      (resp : HttpResponse) (key : String) (w : World)
      → (answer_key resp w).0 ≡ ok key
      → (resp.status ≡ 200)
        × (env.json.view_key resp.body ≡ ok (record { key = key }))
        × ((answer_key resp w).1.trace ≡ w.trace)
  answer_key-ok resp key w e = ground arith

  view_token_key-Shown :
      (id key : String) (w : World)
      → (view_token_key env c id w).0 ≡ ok key
      → Shown id key w (view_token_key env c id w).1
  unfolding view_token_key
  view_token_key-Shown id key w e =
      let m : Exec HttpResponse =
        authorized env c "creating view_key request: %w" "fetching token key: %w"
          (view_request id) in
      let (resp, sent_ok, goes) = bind-ok m answer_key w key e in
      let (answer, traced) =
        authorized-ok "creating view_key request: %w" "fetching token key: %w" (view_request id) w
          resp sent_ok in
      let (status, decoded, same) = answer_key-ok resp key (m w).1 (ap (λ x. x.0) (sym goes) ∙ e) in
      record {
        resp = resp;
        answer = answer;
        status = status;
        decoded = decoded;
        last = ap (λ x. x.1.trace) goes ∙ same ∙ traced;
      }

  abbrev post : Bytes → Exec HttpResponse
  post body = authorized env c "creating request: %w" "executing request: %w" (post_request body)

  abbrev pub posted : Bytes → World → World
  posted body w = record w { trace = Call.http c.tls (sent w (post_request body)) ∷ w.trace }

  -- The token was posted, the answer was taken as a creation, and the key was shown after that.
  pub record Created (id key : String) (start end : World) : Type 0 where
    pub body : Bytes
    pub marshalled : env.json.marshal_token (token_request id) ≡ ok body
    pub resp : HttpResponse
    pub answer : env.send start.trace c.tls (sent start (post_request body)) ≡ ok resp
    pub accepted :
        (resp.status ≡ 201)
        ⊎ ((resp.status ≡ 200)
            ⊎ ((resp.status ≡ 400)
                × (contains_bytes (limited resp.body) (utf8 "already exists") ≡ true)))
    pub between : World
    pub next : between.trace ≡ (posted body start).trace
    pub shown : Shown id key between end

  check_created-ok :
      (resp : HttpResponse)
      → check_created env c resp ≡ ok tt
      → (resp.status ≡ 201)
        ⊎ ((resp.status ≡ 200)
            ⊎ ((resp.status ≡ 400)
                × (contains_bytes (limited resp.body) (utf8 "already exists") ≡ true)))
  unfolding check_created
  check_created-ok resp e = ground arith

  -- Where `CreateAPIToken` returns a key, it has posted the token, the answer was 201, 200, or 400 with a body that
  -- says that the token exists already, and the key is that of the answer, with status 200, to
  -- the one request after that.
  pub create_api_token-Created :
      (id key : String) (w : World)
      → (create_api_token env c id w).0 ≡ ok key
      → Created id key w (create_api_token env c id w).1
  unfolding create_api_token
  create_api_token-Created id key w e =
      let rest : HttpResponse → Exec String =
        λ resp. lift (check_created env c resp) >> view_token_key env c id in
      let (body, encoded, goes) =
        bind-ok
          (wrapping "marshaling request: %w" [] (lift (env.json.marshal_token (token_request id))))
          (λ body. post body >>= rest) w key e in
      let (resp, sent_ok, goes1) = bind-ok (post body) rest w key (ap (λ x. x.0) (sym goes) ∙ e) in
      let (answer, traced) =
        authorized-ok "creating request: %w" "executing request: %w" (post_request body) w resp
          sent_ok in
      let e1 = ap (λ x. x.0) (sym (goes ∙ goes1)) ∙ e in
      let (_, checked, goes2) =
        bind-ok (lift (check_created env c resp)) (λ _. view_token_key env c id) (post body w).1 key
          e1 in
      record {
        body = body;
        marshalled = ground (arith, encoded);
        resp = resp;
        answer = answer;
        accepted = check_created-ok resp checked;
        between = (post body w).1;
        next = traced;
        shown =
            rw (goes, goes1, goes2)
              (view_token_key-Shown id key (post body w).1 (ap (λ x. x.0) (sym goes2) ∙ e1));
      }
