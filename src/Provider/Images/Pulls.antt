-- ===== src/Provider/Images/Pulls.antt =====
-- That finding an image leaves alone what the calls on images leave alone.
use testcontainers_go.Base.{
  ℕ, ◌≡◌, refl, ◌∙◌, String, Bool, true, false, Option, none, some, List, M, Bool-cases, inl, inr,
}
use testcontainers_go.Errors.{Error, wrap, Result, ok, err}
use testcontainers_go.Errors.Flow.{done}
use testcontainers_go.Errors.Flow.Keeping.{Keeps, bind-Keeps, then-Keeps}
use testcontainers_go.Options.{ImageSubstitutor, image_name}
use testcontainers_go.Request.{ContainerRequest, should_build_image}
use testcontainers_go.Provider.PreCreate.{ImageInspect}
use testcontainers_go.Provider.Images.{
  Attempt, Registry, attempted, checked_by, encoded_or_none, registry_auth, pull_once, drained,
  attempt_to_pull_image, build_with, build_image, pull_failed, build_failed, platform_of,
  pull_decision, should_pull_image, pull_if, at_once, pull_decided, pull_described, pull_named,
  pulled_image, image_of,
}

module _ {Ctx Auth Platform Options Reader W : Type 0}
    (G : Registry Ctx Auth Platform Options Reader W) (n : W → ℕ) where
  -- No call on images changes the number, and a retry changes it no more than its attempts do.
  pub record IsQuiet : Type 0 where
    pub inspect : (ctx : Ctx) (i : String) → Keeps n (G.image_inspect ctx i)
    pub auth : (ctx : Ctx) (i : String) → Keeps n (G.docker_image_auth ctx i)
    pub pull : (ctx : Ctx) (i p : String) (a : Option String) → Keeps n (G.image_pull ctx i p a)
    pub build : (ctx : Ctx) (o : Options) → Keeps n (G.image_build ctx o)
    pub options : Keeps n G.build_options
    pub close_context : (o : Options) (w : W) → n (G.close_context o w) ≡ n w
    pub read : (r : Reader) → Keeps n (G.read_all r)
    pub display : (r : Reader) → Keeps n (G.display r)
    pub close_body : (r : Reader) (w : W) → n (G.close_body r w) ≡ n w
    pub close : (w : W) → n (G.close w) ≡ n w
    pub printf : (t : String) (w : W) → n (G.printf t w) ≡ n w
    pub retry_pull :
        (ctx : Ctx) (f : Error → W → W) (m : M W (Attempt Reader))
        → ((e : Error) (w : W) → n (f e w) ≡ n w)
        → Keeps n m
        → Keeps n (G.retry_pull ctx f m)
    pub retry_build :
        (ctx : Ctx) (f : Error → W → W) (m : M W (Attempt (Options × Reader)))
        → ((e : Error) (w : W) → n (f e w) ≡ n w)
        → Keeps n m
        → Keeps n (G.retry_build ctx f m)

checked_by-kept :
    {W : Type 0} (n : W → ℕ) (f : Error → Error) (r : Option Error × W)
    → n (checked_by f r).1 ≡ n r.1
unfolding checked_by
checked_by-kept n f (none, w) = refl
checked_by-kept n f (some e, w) = refl

attempted-kept :
    {A W : Type 0} (n : W → ℕ) (tests : List (Error → Bool)) (f : Error → Error) (close : W → W)
    (r : Result A × W)
    → ((w : W) → n (close w) ≡ n w)
    → n (attempted tests f close r).1 ≡ n r.1
unfolding attempted
attempted-kept n tests f close (err e, w) h = refl
attempted-kept n tests f close (ok a, w) h = h w

module _ {Ctx Auth Platform Options Reader W : Type 0}
    (G : Registry Ctx Auth Platform Options Reader W) (tests : List (Error → Bool)) (n : W → ℕ)
    (Q : IsQuiet G n) where
  encoded-kept :
      (tag : String) (r : Result String) (w : W) → n (encoded_or_none G tests tag r w).1 ≡ n w
  unfolding encoded_or_none
  encoded-kept tag (err e) w = Q.printf _ w
  encoded-kept tag (ok a) w = refl

  registry_auth-kept :
      (tag : String) (r : (String × Result Auth) × W) → n (registry_auth G tests tag r).1 ≡ n r.1
  unfolding registry_auth
  registry_auth-kept tag ((registry, err e), w) = Q.printf _ w
  registry_auth-kept tag ((registry, ok a), w) = encoded-kept tag (G.encoded a) w

  drained-Keeps : (r : Reader) → Keeps n (drained G tests r)
  unfolding drained
  drained-Keeps r w = Q.close_body r _ ∙ checked_by-kept n (λ e. e) (G.read_all r w) ∙ Q.read r w

  pull_once-Keeps :
      (ctx : Ctx) (tag platform : String) (auth : Option String)
      → Keeps n (pull_once G tests ctx tag platform auth)
  unfolding pull_once
  pull_once-Keeps ctx tag platform auth w =
      attempted-kept n tests (λ e. e) G.close (G.image_pull ctx tag platform auth w) Q.close
      ∙ Q.pull ctx tag platform auth w

  pull-Keeps :
      (ctx : Ctx) (tag platform : String) → Keeps n (attempt_to_pull_image G tests ctx tag platform)
  unfolding attempt_to_pull_image
  pull-Keeps ctx tag platform w =
      let (auth, w') = registry_auth G tests tag (G.docker_image_auth ctx tag w) in
      let retried =
        G.retry_pull ctx (λ e. G.printf (pull_failed e))
          (pull_once G tests ctx tag platform auth) in
      bind-Keeps n retried (drained G tests)
        (Q.retry_pull ctx (λ e. G.printf (pull_failed e)) (pull_once G tests ctx tag platform auth)
          (λ e. Q.printf (pull_failed e)) (pull_once-Keeps ctx tag platform auth))
        drained-Keeps w'
      ∙ registry_auth-kept tag (G.docker_image_auth ctx tag w)
      ∙ Q.auth ctx tag w

  build_with-kept : (ctx : Ctx) (r : Result Options × W) → n (build_with G tests ctx r).1 ≡ n r.1
  unfolding build_with
  build_with-kept ctx (err e, w) = refl
  build_with-kept ctx (ok o, w) =
      Q.close_context o _
      ∙ attempted-kept n tests (wrap "build image") G.close _ Q.close
      ∙ Q.build ctx o w

  build-Keeps : (ctx : Ctx) → Keeps n (build_image G tests ctx)
  unfolding build_image
  build-Keeps ctx =
      bind-Keeps n _ _
        (Q.retry_build ctx (λ e. G.printf (build_failed e))
          (λ w. build_with G tests ctx (G.build_options w)) (λ e. Q.printf (build_failed e))
          (λ w. build_with-kept ctx (G.build_options w) ∙ Q.options w))
        (λ (o, body) w.
          Q.close_body body _
          ∙ checked_by-kept n (wrap "build image") (G.display body w)
          ∙ Q.display body w)

  decision-kept :
      (p : Option Platform) (r : Result ImageInspect × W) → n (pull_decision G tests p r).1 ≡ n r.1
  unfolding pull_decision
  decision-kept p (err e, w) = refl
  decision-kept p (ok i, w) = refl

  should_pull-Keeps :
      (ctx : Ctx) (b : Bool) (image : String) (p : Option Platform)
      → Keeps n (should_pull_image G tests ctx b image p)
  unfolding should_pull_image
  should_pull-Keeps ctx true image p w = refl
  should_pull-Keeps ctx false image p w =
      decision-kept p (G.image_inspect ctx image w) ∙ Q.inspect ctx image w

  pull_if-Keeps :
      (ctx : Ctx) (image platform : String) (b : Bool)
      → Keeps n (pull_if G tests ctx image platform b)
  unfolding pull_if
  pull_if-Keeps ctx image platform true w = pull-Keeps ctx image platform w
  pull_if-Keeps ctx image platform false w = refl

  pulled-Keeps :
      (ctx : Ctx) (ss : List ImageSubstitutor) (image platform : String) (b : Bool)
      → Keeps n (pulled_image G tests ctx ss image platform b)
  unfolding pulled_image pull_named pull_described pull_decided at_once
  pulled-Keeps ctx ss image platform b =
      bind-Keeps n (at_once G tests (image_name ss image)) (pull_named G tests ctx platform b)
        (λ w. refl)
        (λ name.
          bind-Keeps n (at_once G tests (platform_of G tests platform))
            (pull_described G tests ctx platform b name) (λ w. refl)
            (λ p.
              bind-Keeps n (should_pull_image G tests ctx b name p)
                (pull_decided G tests ctx platform name p) (should_pull-Keeps ctx b name p)
                (λ c.
                  then-Keeps n (pull_if G tests ctx name platform c) (done (name, p))
                    (pull_if-Keeps ctx name platform c) (λ w. refl))))

  pub image_of-Keeps :
      {A R F : Type 0} (ctx : Ctx) (ss : List ImageSubstitutor) (req : ContainerRequest A R F)
      → Keeps n (image_of G tests ctx ss req)
  unfolding image_of
  image_of-Keeps ctx ss req w = elim (Bool-cases (should_build_image req)) [
    | inl e ↦ rw e (
        bind-Keeps n (build_image G tests ctx) (λ tag. done (tag, none)) (build-Keeps ctx)
          (λ tag w. refl) w)
    | inr e ↦ rw e (pulled-Keeps ctx ss req.image req.image_platform req.always_pull_image w)
  ]
