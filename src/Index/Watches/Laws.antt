-- ===== src/Index/Watches/Laws.antt =====
-- That an object which is listed is among the requests.
use agent_plane.Base.{String, true, some, List, [], ◌∷◌, ◌≡◌, ◌⊎◌, inl, inr, arith, eq_iff, mem}
use agent_plane.Api.{ObjectMeta}
use agent_plane.Index.{Request, has_request}
use agent_plane.Index.Laws.{has_request-add}
use agent_plane.Index.Watches.{
  Dependent, dependent_meta, controller_of, WatchField, watch_keys, Watched, watch_of, WatchLister,
  requests_of_items, enqueue_by_index, watch_requests,
}

abbrev pub HasMeta : ObjectMeta → List ObjectMeta → Type 0
HasMeta o [] = ⊥
HasMeta o (x ∷ xs) = ((x.ns ≡ o.ns) × (x.name ≡ o.name)) ⊎ HasMeta o xs

-- The index of the API server's cache answers for an object: under each of its keys it is listed.
abbrev pub IsListed : WatchLister → Dependent → Type 0
IsListed l o =
    (field : WatchField) (name : String)
    → mem name (watch_keys field o) ≡ true
    → (items : List ObjectMeta) × (l field (dependent_meta o).ns name ≡ some items)
      × HasMeta (dependent_meta o) items

abbrev pub request_for : ObjectMeta → Request
request_for o = record { ns = o.ns; name = o.name }

has_request-requests_of_items :
    (o : ObjectMeta) (items : List ObjectMeta)
    → HasMeta o items
    → has_request (request_for o) (requests_of_items items) ≡ true
unfolding has_request requests_of_items
has_request-requests_of_items o [] h = absurd h
has_request-requests_of_items o (x ∷ xs) (inl (e, f)) =
    ground (arith, eq_iff x.ns o.ns, eq_iff x.name o.name, e, f)
has_request-requests_of_items o (x ∷ xs) (inr h) =
    ground (arith, has_request-requests_of_items o xs h)

-- An object with a name as a key of a watched field is woken by a change under that name.
pub key-wakes :
    (l : WatchLister) (o : Dependent) (watched : Watched) (field : WatchField) (name : String)
    → IsListed l o
    → watch_of (controller_of o) watched ≡ some field
    → mem name (watch_keys field o) ≡ true
    → has_request
        (request_for (dependent_meta o))
        (watch_requests l (controller_of o) watched (dependent_meta o).ns name)
      ≡ true
unfolding watch_requests enqueue_by_index
key-wakes l o watched field name listed is_watched key =
    let (items, e, held) = listed field name key in
    rw (watch_requests, is_watched, enqueue_by_index, e)
      (has_request-add (request_for (dependent_meta o)) [] (requests_of_items items)
        (inr (has_request-requests_of_items (dependent_meta o) items held)))
