-- ===== src/LiveServer/Threads/Replying.antt =====
-- The form of every response of the service.
use mindorr.Prelude.{
  ℕ, Bool, true, false, not, String, none, some, Result, ok, err, ◌≡◌, refl, ◌⊎◌, eqb, if_elim,
}
use mindorr.LiveServer.Proxy.{ActionResult, Object, field, bool}
use mindorr.LiveServer.Replies.Accepting.{says}
use mindorr.LiveServer.Requests.{
  Config, OnboardReq, Request, Service, Writer, write_err, write_json,
}
use mindorr.LiveServer.Handlers.{onboarded, responded}

-- The four paths that `main` has handlers for.
abbrev pub IsRouted : String → Type 0
IsRouted path =
    (path ≡ "/health") ⊎ (path ≡ "/onboard") ⊎ (path ≡ "/allocate") ⊎ (path ≡ "/withdraw")

-- A response of the handlers: with code 204 and without a body, or with an object whose key `ok` says
-- whether all is well, and says so only with code 200.
pub data IsReply (w : Writer) : Type 0 where
  empty : w.code ≡ 204 → w.body ≡ none → IsReply w
  answer : (well : Bool) → says w ≡ some (bool well) → (well ≡ true → w.code ≡ 200) → IsReply w

-- What a request is answered, by its path: a response of the handlers, or what `http.ServeMux` itself
-- answers.
pub data IsResponse (s : Service) (r : Request) (w : Writer) : Type 0 where
  routed : IsRouted r.path → IsReply w → IsResponse s r w
  unrouted : ¬ IsRouted r.path → w ≡ s.unrouted r → IsResponse s r w

pub write_err-IsReply : (code : ℕ) (msg : String) (w : Writer) → IsReply (write_err code msg w)
write_err-IsReply code msg w = answer false refl (λ h. cc)

-- An object that says whether all is well, with code 200.
pub write_json-IsReply :
    (well : Bool) (object : Object) (w : Writer)
    → field "ok" object ≡ some (bool well)
    → IsReply (write_json 200 object w)
write_json-IsReply well object w h = answer well h (λ e. refl)

module _ (cfg : Config) (s : Service) where
  pub onboarded-IsReply :
      (req : OnboardReq) (wallet risk : String) (res : Result ActionResult) (w : Writer)
      → IsReply (onboarded cfg s req wallet risk res w)
  unfolding onboarded
  onboarded-IsReply req wallet risk (err e) w = write_err-IsReply _ _ w
  onboarded-IsReply req wallet risk (ok res) w =
      if_elim IsReply (not (eqb res.status 1)) (λ _. write_err-IsReply _ _ w)
        (λ _. write_json-IsReply true _ w refl)

  pub responded-IsReply : (res : Result ActionResult) (w : Writer) → IsReply (responded cfg s res w)
  unfolding responded
  responded-IsReply (err e) w = write_err-IsReply _ _ w
  responded-IsReply (ok res) w =
      if_elim IsReply (not (eqb res.status 1)) (λ _. write_json-IsReply false _ w refl)
        (λ _. write_json-IsReply true _ w refl)
