-- ===== src/Controllers/Reconcile.antt =====
-- The Reconcile method of the controllers of Stream, Processor, Channel and Joiner, which differ only
-- in the resource, the object that it owns, and how that object is built.
pub mod Calls
pub mod Courses
pub mod Cache
pub mod Once
use streaming_runtime_go.Prelude.{
  Text, Outcome, ok, fail, panic, Error, Bool, true, false, if◌then◌else◌,
}
use streaming_runtime_go.Api.{NamespacedName, ObjectMeta}
use streaming_runtime_go.Controllers.Client.{
  Action, Session, Reconciled, finished, requeued, failed,
}

abbrev pub key_of : ObjectMeta → NamespacedName
key_of m = record { name = m.name; namespace = m.namespace }

-- How a controller reads its resource `P` and the owned object `D`, builds one and creates it.
pub record Controller (W P D : Type 0) : Type 0 where
  pub fetch : NamespacedName → Action W P
  pub meta_of : P → ObjectMeta
  pub fetch_owned : NamespacedName → Action W D
  pub build : P → Action W D
  pub post : D → Action W (Unit {0})

module _ {W P D : Type 0} (c : Controller W P D) where
  abbrev Return : Type 0
  Return = Outcome Reconciled × Session W

  -- after r.Create
  unfoldable pub after_create : Outcome (Unit {0}) × Session W → Return
  after_create (ok u, s) = (ok requeued, s)
  after_create (fail e, s) = (ok (failed e), s)
  after_create (panic m, s) = (panic m, s)

  -- after the object is built
  unfoldable pub after_build : Outcome D × Session W → Return
  unfolding after_create
  after_build (ok d, s) = after_create (c.post d s)
  after_build (fail e, s) = (ok (failed e), s)
  after_build (panic m, s) = (panic m, s)

  -- after the Get of the owned object
  unfoldable pub after_owned : P → Outcome D × Session W → Return
  unfolding after_build
  after_owned p (ok d, s) = (ok finished, s)
  after_owned p (fail e, s) =
      if e.is_not_found then after_build (c.build p s) else (ok (failed e), s)
  after_owned p (panic m, s) = (panic m, s)

  -- after the Get of the resource
  unfoldable pub after_fetch : Outcome P × Session W → Return
  unfolding after_owned
  after_fetch (ok p, s) =
      if (c.meta_of p).deleting
      then (ok finished, s)
      else after_owned p (c.fetch_owned (key_of (c.meta_of p)) s)
  after_fetch (fail e, s) = if e.is_not_found then (ok finished, s) else (ok (failed e), s)
  after_fetch (panic m, s) = (panic m, s)

  -- Reconcile
  unfoldable pub reconcile : NamespacedName → Session W → Return
  unfolding after_fetch
  reconcile req s = after_fetch (c.fetch req s)
