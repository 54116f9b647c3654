-- ===== src/HttpApi/Guards.antt =====
-- The guards of the webhook handlers of internal/httpapi/server.go.
use maxbridge.HttpApi.{Body, unreadable, undecodable, decoded, Request, decoded_body, guarded}
use maxbridge.Prelude.{ap, ℕ, ◌≡◌, refl, ◌⊎◌, inl, inr, Bool-cases}
use maxbridge.Text.{Text, utf8, ◌==ᵗ◌, ==ᵗ_iff}

abbrev pub IsRefusal : ℕ → Type 0
IsRefusal status = (status ≡ 405) ⊎ (status ≡ 403) ⊎ (status ≡ 400)

module _ {A : Type 0} (secret : Text) (request : Request A) where
  -- The request is a POST with the secret, and its body holds the update.
  abbrev pub IsAuthentic : A → Type 0
  IsAuthentic a =
      (request.method ≡ utf8 "POST") × (request.secret ≡ secret) × (request.body ≡ decoded a)

  -- What the guards say of the request.
  abbrev pub Checked : ℕ ⊎ A → Type 0
  Checked (inl status) = IsRefusal status
  Checked (inr a) = IsAuthentic a

  decoded_body-Checked :
      (body : Body A)
      → request.body ≡ body
      → request.method ≡ utf8 "POST"
      → request.secret ≡ secret
      → Checked (decoded_body body)
  decoded_body-Checked unreadable e method known = inr (inr refl)
  decoded_body-Checked undecodable e method known = inr (inr refl)
  decoded_body-Checked (decoded a) e method known = (method, known, e)

  pub guarded-Checked : Checked (guarded secret request)
  unfolding guarded
  guarded-Checked = elim (Bool-cases (request.method ==ᵗ utf8 "POST")) [
    | inr other ↦ rw other (inl refl)
    | inl post ↦ elim (Bool-cases (request.secret ==ᵗ secret)) [
      | inr wrong ↦ rw (post, wrong) (inr (inl refl))
      | inl right ↦
          rw (post, right)
            (decoded_body-Checked request.body refl ((==ᵗ_iff request.method (utf8 "POST")).0 post)
              ((==ᵗ_iff request.secret secret).0 right))
    ]
  ]

  pub guarded-authentic : (a : A) → IsAuthentic a → guarded secret request ≡ inr a
  unfolding guarded
  guarded-authentic a (method, known, body) =
      let post = (==ᵗ_iff request.method (utf8 "POST")).1 method in
      let right = (==ᵗ_iff request.secret secret).1 known in rw (post, right) (ap decoded_body body)
