-- ===== src/Pulumi/Provider/Instance/Groups.antt =====
-- The update of an instance's security groups, against an API that keeps a set of them.
use nobus_csi.Common.{
  ℕ, ◌≡◌, refl, ap, ◌∙◌, Bool, not, ◌&&◌, ◌||◌, String, List, [], ◌∷◌, none, ◌==◌, arith,
  Bool-cases, inl, inr,
}
use nobus_csi.Common.Text.{contains}
use nobus_csi.Cloud.Errors.{ok}
use nobus_csi.Cloud.Run.{return, ◌>>=◌, ◌>>◌}
use nobus_csi.Pulumi.Client.Shapes.{security_group_payload}
use nobus_csi.Pulumi.Client.Calls.{Transport, HttpRequest, Session, Context, request}
use nobus_csi.Pulumi.Client.Calls.Accepted.{Accepted, do_request-Accepted}
use nobus_csi.Pulumi.Client.Compute.{attach_security_group, remove_security_group}
use nobus_csi.Pulumi.Provider.Scope.{bare_ids}
use nobus_csi.Pulumi.Provider.Sets.{string_slices_equal, slice_diff}
use nobus_csi.Pulumi.Provider.Sets.Laws.{string_slices_equal-contains, slice_diff-Exact}
use nobus_csi.Pulumi.Provider.Instance.{InstanceArgs}
use nobus_csi.Pulumi.Provider.Instance.Update.{
  group_request, remove_groups, attach_groups, change_groups,
}

module _ (T : Transport) (poll : ℕ) (ctx : Context) (project zone server : String)
    (old news : InstanceArgs) where
  abbrev pub removal : String → HttpRequest
  removal g =
      request "POST" "/api/v3/instance/remove-security-group" none
        (security_group_payload (group_request T poll ctx project zone server old news g))

  abbrev pub attachment : String → HttpRequest
  attachment g =
      request "POST" "/api/v3/instance/attach-security-group" none
        (security_group_payload (group_request T poll ctx project zone server old news g))

  -- The API accepts the requests about the server's groups, and holds a set of groups that they change.
  pub record GroupApi (holds : T.State → String → Bool) : Type 0 where
    pub removes : (g : String) (t : T.State) → Accepted (T.send (removal g) t).0
    pub removed :
        (g x : String) (t : T.State)
        → holds (T.send (removal g) t).1 x ≡ (not (x == g) && holds t x)
    pub attaches : (g : String) (t : T.State) → Accepted (T.send (attachment g) t).0
    pub attached :
        (g x : String) (t : T.State) → holds (T.send (attachment g) t).1 x ≡ (x == g || holds t x)

  module _ (holds : T.State → String → Bool) (api : GroupApi holds) where
    remove_groups-holds :
        (gs : List String) (s : Session T) (x : String)
        → ((remove_groups T poll ctx project zone server old news gs s).0 ≡ ok tt)
          × (holds (remove_groups T poll ctx project zone server old news gs s).1.remote x
              ≡ (not (contains gs x) && holds s.remote x))
    unfolding remove_groups remove_security_group ◌>>=◌ return
    remove_groups-holds [] s x = (refl, refl)
    remove_groups-holds (g ∷ gs) s x =
        let t : Session T = record s { remote = (T.send (removal g) s.remote).1 } in
        rw (do_request-Accepted T ctx (removal g) s (api.removes g s.remote)) (
          let (done, view) = remove_groups-holds gs t x in
          (done, ground (arith, view, api.removed g x s.remote)))

    attach_groups-holds :
        (gs : List String) (s : Session T) (x : String)
        → ((attach_groups T poll ctx project zone server old news gs s).0 ≡ ok tt)
          × (holds (attach_groups T poll ctx project zone server old news gs s).1.remote x
              ≡ (contains gs x || holds s.remote x))
    unfolding attach_groups attach_security_group ◌>>=◌ return
    attach_groups-holds [] s x = (refl, refl)
    attach_groups-holds (g ∷ gs) s x =
        let t : Session T = record s { remote = (T.send (attachment g) s.remote).1 } in
        rw (do_request-Accepted T ctx (attachment g) s (api.attaches g s.remote)) (
          let (done, view) = attach_groups-holds gs t x in
          (done, ground (arith, view, api.attached g x s.remote)))

    in_turn-holds :
        (gone new : List String) (s : Session T) (x : String)
        → (((remove_groups T poll ctx project zone server old news gone
                >> attach_groups T poll ctx project zone server old news new)
              s).0
            ≡ ok tt)
          × (holds
                ((remove_groups T poll ctx project zone server old news gone
                    >> attach_groups T poll ctx project zone server old news new)
                  s).1.remote
                x
              ≡ (contains new x || (not (contains gone x) && holds s.remote x)))
    unfolding ◌>>=◌
    in_turn-holds gone new s x =
        let (done, view) = remove_groups-holds gone s x in
        let t = (remove_groups T poll ctx project zone server old news gone s).1 in
        let (done', view') = attach_groups-holds new t x in
        rw done (done', view' ∙ ap (λ (b : Bool). contains new x || b) view)

    -- Where the server holds the old groups, the update succeeds and leaves the server with the new
    -- ones, in bare identifiers: on the set that the API keeps, it is the assignment of the new set.
    pub change_groups-holds :
        (s : Session T) (x : String)
        → ((y : String) → holds s.remote y ≡ contains (bare_ids old.security_groups) y)
        → ((change_groups T poll ctx project zone server old news s).0 ≡ ok tt)
          × (holds (change_groups T poll ctx project zone server old news s).1.remote x
              ≡ contains (bare_ids news.security_groups) x)
    unfolding change_groups ◌>>=◌ return
    change_groups-holds s x start =
        let add = (slice_diff old.security_groups news.security_groups).0 in
        let remove = (slice_diff old.security_groups news.security_groups).1 in
        elim (Bool-cases (string_slices_equal old.security_groups news.security_groups)) [
          | inl e ↦ rw e (
            refl,
            start x ∙ string_slices_equal-contains old.security_groups news.security_groups x e,
          )
          | inr ne ↦ rw ne (
              let (done, view) = in_turn-holds remove add s x in
              (
                done,
                ground (
                  arith,
                  view,
                  start x,
                  (slice_diff-Exact old.security_groups news.security_groups x).0,
                ),
              ))
        ]
