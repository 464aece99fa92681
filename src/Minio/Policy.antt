-- ===== src/Minio/Policy.antt =====
-- What the policy of a MinIO request grants.
use tapr.Base.{
  String, ◌<>◌, Bool, ◌&&◌, ◌||◌, List, [], ◌∷◌, ◌≡◌, refl, map, any, contains, ◌==◌, string_eq,
  Bool-cases, inl, inr, arith,
}
use tapr.Minio.{MinioRequest, Grant, get_bucket_name, bucket_names, bucket_resources, policy_of}

-- Some statement allows the action on the resource.
abbrev pub grants : List Grant → String → String → Bool
grants gs action resource = any (λ g. contains g.actions action && contains g.resources resource) gs

-- A bucket of the request, or an object in it.
abbrev pub is_own : MinioRequest → String → Bool
is_own req r =
    any
      (λ b.
        (r == "arn:aws:s3:::" <> req.app_namespace <> "-" <> b)
        || (r == "arn:aws:s3:::" <> (req.app_namespace <> "-" <> b) <> "/*"))
      req.buckets

-- The pattern of the buckets of the namespace, or that of the objects in them.
abbrev pub is_prefixed : MinioRequest → String → Bool
is_prefixed req r =
    (r == "arn:aws:s3:::" <> req.app_namespace <> "-*")
    || (r == "arn:aws:s3:::" <> req.app_namespace <> "-*/*")

-- What the user may do: list all buckets, everything with those of the request, and everything with
-- those of its namespace if the request allows it.
abbrev pub may : MinioRequest → String → String → Bool
may req a r =
    (((a == "s3:ListAllMyBuckets") || (a == "s3:HeadBucket") || (a == "s3:GetBucketLocation"))
      && (r == "arn:aws:s3:::*"))
    || ((a == "s3:*") && (is_own req r || (req.allow_namespace_buckets && is_prefixed req r)))

contains-bucket_resources :
    (ns r : String) (bs : List String)
    → contains (bucket_resources (map (get_bucket_name ns) bs)) r
      ≡ any
          (λ b.
            (r == "arn:aws:s3:::" <> ns <> "-" <> b)
            || (r == "arn:aws:s3:::" <> (ns <> "-" <> b) <> "/*"))
          bs
unfolding bucket_resources any get_bucket_name
contains-bucket_resources ns r [] = refl
contains-bucket_resources ns r (b ∷ bs) = ground (arith, contains-bucket_resources ns r bs)

pub grants-policy_of :
    (req : MinioRequest) (a r : String)
    → grants (policy_of req (bucket_names req)) a r ≡ may req a r
unfolding policy_of any bucket_names
grants-policy_of req a r = elim (Bool-cases req.allow_namespace_buckets) [
  | inl e ↦ rw e (ground (arith, contains-bucket_resources req.app_namespace r req.buckets))
  | inr e ↦ rw e (ground (arith, contains-bucket_resources req.app_namespace r req.buckets))
]
