-- ===== src/Adapters/Http.antt =====
-- The handler of pubsub/http.go, for a subscriber that `NewHTTPSubscriber` made.
use Prim.Native.String.{len, ◌++◌ as concat}
use text.Mathlib.TextPositions.{len-append}
use anycable_go.Base.{
  ℕ, ◌≡◌, refl, ◌≢◌, ◌⊎◌, inl, inr, String, Bool, true, false, not, Option, none, some, ◌=s=◌,
  =s=_iff, =s=_ne, ap, ◌&&◌, =s=_false, arith, Bool-cases,
}
use anycable_go.Common.{PubSubCodec}
use anycable_go.Node.{Node, handle_pub_sub}
use anycable_go.Adapters.{HttpConfig, new_http_subscriber, Request, http_handler, handle_body}

-- Whether the request carries the secret, if one is set.
abbrev pub IsAuthorized : HttpConfig → Request → Type 0
IsAuthorized config r = (config.secret ≡ "") ⊎ (r.authorization ≡ concat "Bearer " config.secret)

bearer_ne : (secret : String) → (concat "Bearer " secret =s= "") ≡ false
bearer_ne secret = =s=_ne _ _ (λ e. absurd (omega (arith, len-append "Bearer " secret, ap len e)))

refuses : HttpConfig → Request → Bool
unfolding new_http_subscriber
refuses config r =
    let s = new_http_subscriber config in
    not (s.auth_header =s= "") && not (r.authorization =s= s.auth_header)

refuses_cases :
    (config : HttpConfig) (r : Request)
    → ((refuses config r ≡ false) × IsAuthorized config r)
      ⊎ ((refuses config r ≡ true) × ¬ IsAuthorized config r)
unfolding refuses
refuses_cases config r = elim (Bool-cases (config.secret =s= "")) [
  | inl open_ ↦ inl (rw open_ refl, inl ((=s=_iff _ _).0 open_))
  | inr secret ↦ elim (Bool-cases (r.authorization =s= concat "Bearer " config.secret)) [
    | inl same ↦ inl (rw (secret, bearer_ne config.secret, same) refl, inr ((=s=_iff _ _).0 same))
    | inr other ↦ inr (
      rw (secret, bearer_ne config.secret, other) refl,
      λ h. elim h [ inl e ↦ =s=_false _ _ secret e | inr e ↦ =s=_false _ _ other e ],
    )
  ]
]

-- What comes of a request, by the four answers.
abbrev pub Handled : PubSubCodec → HttpConfig → Request → Node → Node × ℕ → Type 0
Handled codec config r n answer =
    ((raw : String) × (r.method ≡ "POST")
      × IsAuthorized config r
      × (r.body ≡ some raw)
      × (answer ≡ (handle_pub_sub codec n raw, 201)))
    ⊎ ((r.method ≢ "POST") × (answer ≡ (n, 422)))
    ⊎ ((r.method ≡ "POST") × ¬ IsAuthorized config r × (answer ≡ (n, 401)))
    ⊎ ((r.method ≡ "POST") × IsAuthorized config r × (r.body ≡ none) × (answer ≡ (n, 422)))

module _ (codec : PubSubCodec) (config : HttpConfig) (r : Request) (n : Node) where
  wrong_method :
      (r.method =s= "POST") ≡ false → http_handler codec (new_http_subscriber config) r n ≡ (n, 422)
  unfolding http_handler
  wrong_method e = rw e refl

  unauthorized :
      (r.method =s= "POST") ≡ true
      → refuses config r ≡ true
      → http_handler codec (new_http_subscriber config) r n ≡ (n, 401)
  unfolding http_handler refuses
  unauthorized e h = rw (e, h) refl

  reads :
      (r.method =s= "POST") ≡ true
      → refuses config r ≡ false
      → http_handler codec (new_http_subscriber config) r n ≡ handle_body codec r.body n
  unfolding http_handler refuses
  reads e h = rw (e, h) refl

  body_cases :
      (answer : Node × ℕ) (body : Option String)
      → r.body ≡ body
      → r.method ≡ "POST"
      → IsAuthorized config r
      → answer ≡ handle_body codec body n
      → Handled codec config r n answer
  unfolding handle_body
  body_cases answer none e post auth a = inr (inr (inr (post, auth, e, a)))
  body_cases answer (some raw) e post auth a = inl (raw, post, auth, e, a)

-- A message reaches the node exactly from a POST request that carries the secret as its bearer token, if
-- one is set, and whose body can be read; it is answered by 201. Otherwise the node is left as it
-- was, and the answer is 422 for another method, else 401 without the secret, else 422.
pub http_handler_cases :
    (codec : PubSubCodec) (config : HttpConfig) (r : Request) (n : Node)
    → Handled codec config r n (http_handler codec (new_http_subscriber config) r n)
http_handler_cases codec config r n = elim (Bool-cases (r.method =s= "POST")) [
  | inr other ↦ inr (inl (=s=_false _ _ other, wrong_method codec config r n other))
  | inl post ↦ elim (refuses_cases config r) [
    | inr (refused, stranger) ↦
        inr (inr (inl ((=s=_iff _ _).0 post, stranger, unauthorized codec config r n post refused)))
    | inl (passes, auth) ↦
        body_cases codec config r n _ r.body refl ((=s=_iff _ _).0 post) auth
          (reads codec config r n post passes)
  ]
]
