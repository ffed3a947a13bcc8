-- ===== src/Reaper/Requests/Matching.antt =====
-- That the reaper's own container is found again, and that it is told of all the others.
use testcontainers_go.Base.{ℕ, String, ◌≡◌, refl, true, false, Option, some, List, All, arith}
use testcontainers_go.Base.Dict.{Dict, IsMap, lookup, insert_all, lookup-insert_all}
use testcontainers_go.Config.{Config}
use testcontainers_go.Labels.{default_labels}
use testcontainers_go.Request.{ContainerRequest}
use testcontainers_go.Provider.Creation.{labels_of}
use testcontainers_go.Reaper.Requests.{look_up_options, reaper_request}

-- What a filter by labels asks of the labels of a container.
abbrev pub HasLabels : List (String × String) → Dict String → Type 0
HasLabels wanted labels = All (λ p. lookup p.0 labels ≡ some p.1) wanted

-- The look-up of a reaper asks for labels and a name that the request of the reaper has.
pub reaper_request-found :
    (A R F : Type 0) (text : ℕ → String) (c : Config) (session_id socket : String)
    (network : Option String) (defaults : Dict String)
    → let req : ContainerRequest A R F = reaper_request text c session_id socket network in
      HasLabels (look_up_options session_id).labels (labels_of true defaults req)
      × (req.name ≡ (look_up_options session_id).name)
unfolding look_up_options labels_of reaper_request lookup
reaper_request-found A R F text c session_id socket network defaults =
    ((refl, (refl, (refl, tt))), refl)

default_labels-IsMap : (session_id : String) → IsMap (default_labels session_id)
unfolding default_labels lookup
default_labels-IsMap session_id = (refl, (refl, (refl, (refl, tt))))

kept :
    (k v session_id : String) (labels : Dict String)
    → lookup k (default_labels session_id) ≡ some v
    → lookup k (insert_all (default_labels session_id) labels) ≡ some v
kept k v session_id labels h = ground (
  arith,
  h,
  lookup-insert_all k (default_labels session_id) labels (default_labels-IsMap session_id),
)

-- A container that is reaped carries every label that the reaper is told of, whatever labels its
-- request has.
pub labels_of-told :
    {A R F : Type 0} (session_id : String) (req : ContainerRequest A R F)
    → HasLabels (default_labels session_id) (labels_of false (default_labels session_id) req)
unfolding labels_of default_labels lookup
labels_of-told session_id req =
    let k = λ (k v : String) (h : lookup k (default_labels session_id) ≡ some v).
      kept k v session_id req.labels h in
    (k _ _ refl, (k _ _ refl, (k _ _ refl, (k _ _ refl, tt))))
