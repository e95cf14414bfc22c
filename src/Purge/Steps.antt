-- ===== src/Purge/Steps.antt =====
-- The purge pipeline as a step relation on the requests and the projection, and the invariant that its
-- steps keep. The commands of internal/store/purge_store.go are such steps, which the modules below show.
use drenyra_engram.Base.{true, false, ◌∷◌, ◌≡◌, ap, subst, ◌∙◌, In}
use drenyra_engram.Purge.{requested, EvidencePurgeRequest}
use drenyra_engram.Purge.Tables.{PurgeStore}
use drenyra_engram.Purge.Writes.{legal_status_change, replace_request}
use drenyra_engram.Purge.Rows.{state_of}
use drenyra_engram.Purge.Agreement.{
  IsSound, Unique-replace, Agreed-replace, Agreed-again, Agreed-upsert, Agreed-here, others, clash,
  Apart-from,
}
use drenyra_engram.Purge.Frames.{Frame, Frame-trans, Projects, Projects-after}

-- A step leaves both as they are, projects a request's object to the state it has, opens a request, or
-- replaces a row by a legal change of its status.
pub data Step (s u : PurgeStore) : Type 0 where
  idle : Frame s u → Step s u
  projecting :
      (r : EvidencePurgeRequest)
      → In r s.requests
      → Projects s u r.object_id (state_of r.status)
      → Step s u
  opening :
      (t : PurgeStore) (r : EvidencePurgeRequest)
      → clash r s.requests ≡ false
      → r.status ≡ requested
      → t.requests ≡ r ∷ s.requests
      → t.states ≡ s.states
      → Projects t u r.object_id (state_of r.status)
      → Step s u
  moving :
      (t : PurgeStore) (r r0 : EvidencePurgeRequest)
      → In r0 s.requests
      → r.request_id ≡ r0.request_id
      → r.object_id ≡ r0.object_id
      → r.tenant_id ≡ r0.tenant_id
      → legal_status_change r0.status r.status ≡ true
      → t.requests ≡ replace_request r s.requests
      → t.states ≡ s.states
      → Projects t u r.object_id (state_of r.status)
      → Step s u

pub Step-after : (s a u : PurgeStore) → Frame s a → Step a u → Step s u
Step-after s a u f (idle g) = idle (Frame-trans s a u f g)
Step-after s a u f (projecting r m w) =
    projecting r (subst (In r) f.0 m) (Projects-after s a u _ _ f w)
Step-after s a u f (opening t r n q tr ts w) =
    opening t r (subst (λ z. clash r z ≡ false) f.0 n) q (tr ∙ ap (λ z. r ∷ z) f.0) (ts ∙ f.1) w
Step-after s a u f (moving t r r0 m i o n l tr ts w) =
    moving t r r0 (subst (In r0) f.0 m) i o n l (tr ∙ ap (replace_request r) f.0) (ts ∙ f.1) w

-- A sound store stays sound.
pub Step-IsSound : (s u : PurgeStore) → IsSound s → Step s u → IsSound u
Step-IsSound s u v (idle (a, b)) = record { apart = rw a v.apart; agreed = rw (b, a) v.agreed }
Step-IsSound s u v (projecting r m (p, ur, us, po, pl)) = record {
  apart = rw ur v.apart;
  agreed = rw (us, ur) (Agreed-again p s.states r s.requests m po pl v.apart v.agreed);
}
Step-IsSound s u v (opening t r n q tr ts (p, ur, us, po, pl)) =
    let a = Apart-from r s.requests n in
    record {
      apart = rw (ur, tr) (a, v.apart);
      agreed =
          rw (us, ts, ur, tr)
            (
              Agreed-here p s.states r po pl,
              Agreed-upsert p s.states s.requests (others p r s.requests po a) v.agreed,
            );
    }
Step-IsSound s u v (moving t r r0 m i o n l tr ts (p, ur, us, po, pl)) = record {
  apart = rw (ur, tr) (Unique-replace r s.requests r0 m i o v.apart);
  agreed =
      rw (us, ts, ur, tr) (Agreed-replace p s.states r s.requests r0 m i o po pl v.apart v.agreed);
}

pub Frame-IsSound : (s t : PurgeStore) → Frame s t → IsSound s → IsSound t
Frame-IsSound s t f v = Step-IsSound s t v (idle f)
