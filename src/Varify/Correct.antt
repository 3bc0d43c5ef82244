-- ===== src/Varify/Correct.antt =====
-- server/varify_server over a Redis and a mail transport that work, and over ones that fail.
use Prim.Native.String
use qt_chatting.Prelude.{
  ℕ, ◌≤◌, ◌<◌, String, Option, some, List, ◌∷◌, ◌≡◌, refl, ℤ, pos, ap, ◌∙◌, returned, threw, Runs,
  arith,
}
use qt_chatting.Protocol.{GetVarifyReq, Modules, register_mod, resetpwd_mod, module_number}
use qt_chatting.Varify.{
  Node, Mail, success, redis_err, exception, response, code_prefix, mail_options, get_varify_code,
}
use qt_chatting.Varify.Digits.{padded}

-- `stored` is what Redis holds for a key, `mails` are the mails sent, the last one first, and
-- `view` is any other part of the world.
pub record Delivers {World X : Type 0} (n : Node World) (view : World → X) : Type 0 where
  pub stored : String → World → Option String
  pub mails : World → List Mail
  pub random_lem :
      (a b : ℕ) (w : World)
      → a < b
      → (k : ℕ) × (v : World) × (n.random_int a b w ≡ (k, v))
        × (a ≤ k)
        × (k < b)
        × (mails v ≡ mails w)
        × (view v ≡ view w)
  pub set_lem :
      (key value : String) (w : World)
      → (v : World) × (n.redis_set key value w ≡ (returned tt, v))
        × (stored key v ≡ some value)
        × (mails v ≡ mails w)
        × (view v ≡ view w)
  pub expire_lem :
      (key : String) (seconds : ℕ) (w : World)
      → (v : World) × (n.redis_expire key seconds w ≡ (returned tt, v))
        × (stored key v ≡ stored key w)
        × (mails v ≡ mails w)
        × (view v ≡ view w)
  pub mail_lem :
      (mail : Mail) (w : World)
      → (info : String) × (v : World) × (n.send_mail mail w ≡ (returned info, v))
        × ((key : String) → stored key v ≡ stored key w)
        × (mails v ≡ mail ∷ mails w)
        × (view v ≡ view w)

-- The prefixes that the gate server asks Redis with.
abbrev pub prefix_of : Modules → String
prefix_of register_mod = "RegisterCode:"
prefix_of resetpwd_mod = "ResetPwdCode:"

module _ {World X : Type 0} (n : Node World) (view : World → X) (d : Delivers n view) where
  -- The code `code` has been made, stored and mailed since the world `w`.
  pub record Sent (email : String) (module_id : ℤ) (k : ℕ) (w v : World) : Type 0 where
    pub in_range : k < 1000000
    pub kept : d.stored (String.◌++◌ (code_prefix module_id) email) v ≡ some (padded k)
    pub mailed : d.mails v ≡ mail_options email module_id (padded k) ∷ d.mails w
    pub same_view : view v ≡ view w

  -- For any number of a module.
  pub get_varify_code-Sent :
      (req : GetVarifyReq) (w : World)
      → (k : ℕ) × Runs
          (get_varify_code n req)
          w
          (response req.email success)
          (Sent req.email req.module_id k w)
  unfolding get_varify_code
  get_varify_code-Sent req w =
      let key = String.◌++◌ (code_prefix req.module_id) req.email in
      let (k, w₁, drew, low, high, m₁, v₁) = d.random_lem 0 1000000 w (omega arith) in
      let (w₂, set, held, m₂, v₂) = d.set_lem key (padded k) w₁ in
      let (w₃, expires, held', m₃, v₃) = d.expire_lem key 1800 w₂ in
      let mail = mail_options req.email req.module_id (padded k) in
      let (info, w₄, sent, held'', m₄, v₄) = d.mail_lem mail w₃ in
      (
        k,
        (
          w₄,
          rw (drew, set, expires, sent),
          record {
            in_range = high;
            kept = held'' key ∙ held' ∙ held;
            mailed = m₄ ∙ ap (λ ms. mail ∷ ms) (m₃ ∙ m₂ ∙ m₁);
            same_view = v₄ ∙ v₃ ∙ v₂ ∙ v₁;
          },
        ),
      )

  -- What the mail's text says around the code.
  abbrev pub greeting : Modules → String
  greeting register_mod = "您正在注册，验证码为 "
  greeting resetpwd_mod = "您正在重置密码，验证码为 "

  abbrev pub text_with : Modules → String → String
  text_with mod_ code = String.◌++◌ (greeting mod_) (String.◌++◌ code " 三十分钟内有效。")

  -- One mail to `email` whose text holds the code that is stored.
  abbrev pub Mails : String → Modules → ℕ → World → World → Type 0
  Mails email mod_ k w v =
      (mail : Mail) × (d.mails v ≡ mail ∷ d.mails w)
      × (mail.to ≡ email)
      × (mail.text ≡ some (text_with mod_ (padded k)))
      × (d.stored (String.◌++◌ (prefix_of mod_) email) v ≡ some (padded k))
      × (k < 1000000)

  -- Where Redis takes the code and the transport the mail, the verification service replies Success
  -- to a request of the register module or the reset module; one mail was sent since, to the email
  -- of the request, and its text holds, behind the greeting of the module, the code that Redis
  -- holds under the email and the prefix that the gate server asks with; it is a number below
  -- 1000000, written out.
  pub get_varify_code-Mails :
      (email : String) (mod_ : Modules) (w : World)
      → (k : ℕ) × Runs
          (get_varify_code n (record { email = email; module_id = module_number mod_ }))
          w
          (response email success)
          (Mails email mod_ k w)
  get_varify_code-Mails email register_mod w =
      let (k, ran) = get_varify_code-Sent (record { email = email; module_id = pos 0 }) w in
      let (v, out, s) = ran in
      (
        k,
        (v, out, (mail_options email (pos 0) (padded k), s.mailed, refl, refl, s.kept, s.in_range)),
      )
  get_varify_code-Mails email resetpwd_mod w =
      let (k, ran) = get_varify_code-Sent (record { email = email; module_id = pos 1 }) w in
      let (v, out, s) = ran in
      (
        k,
        (v, out, (mail_options email (pos 1) (padded k), s.mailed, refl, refl, s.kept, s.in_range)),
      )

-- Redis refuses the code: the reply is RedisErr, and nothing is mailed.
module _ {World : Type 0} (n : Node World) where
  pub get_varify_code-redis_err :
      (req : GetVarifyReq) (k : ℕ) (w v u : World) (e : String)
      → n.random_int 0 1000000 w ≡ (k, v)
      → n.redis_set (String.◌++◌ (code_prefix req.module_id) req.email) (padded k) v ≡ (threw e, u)
      → get_varify_code n req w ≡ (returned (response req.email redis_err), u)
  unfolding get_varify_code
  get_varify_code-redis_err req k w v u e drew refused = rw (drew, refused)

  -- The transport refuses the mail: the reply is Exception, and Redis keeps the code.
  pub get_varify_code-exception :
      (req : GetVarifyReq) (k : ℕ) (w v u t s : World) (e : String)
      → n.random_int 0 1000000 w ≡ (k, v)
      → n.redis_set (String.◌++◌ (code_prefix req.module_id) req.email) (padded k) v
        ≡ (returned tt, u)
      → n.redis_expire (String.◌++◌ (code_prefix req.module_id) req.email) 1800 u ≡ (returned tt, t)
      → n.send_mail (mail_options req.email req.module_id (padded k)) t ≡ (threw e, s)
      → get_varify_code n req w ≡ (returned (response req.email exception), s)
  unfolding get_varify_code
  get_varify_code-exception req k w v u t s e drew set expires refused =
      rw (drew, set, expires, refused)
