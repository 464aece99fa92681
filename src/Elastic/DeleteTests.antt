-- ===== src/Elastic/DeleteTests.antt =====
-- The deletion from a service that keeps what it is told.
use tapr.Base.{String, true, some, List, [], string_eq}
use tapr.Base.Http.{HttpReply}
use tapr.Base.Effect.{Result, ok, err}
use tapr.Elastic.Delete
use tapr.Elastic.Tests.{World}

names_of : Result (List String) → List String
names_of (ok names) = names
names_of (err e) = []

answered : World × Result (HttpReply (Result (List String))) → List String
answered (w, ok r) = names_of r.value
answered (w, err e) = []

abbrev full : World
full = record {
  indexes = λ i. true;
  passwords = λ n. some "secret";
  given = λ n. [];
  defined = λ n. some "[]";
}
