-- ===== src/Cluster/Secure.antt =====
-- The scheme of the operator's connections, and the certificates that they trust.
use qdrant_operator.Common.{
  ℕ, ◌==◌, ◌&&◌, Text, Bool, true, false, Option, none, some, [], ◌∷◌, ◌++◌, ◌≡◌, refl, ap, ◌∙◌,
  Bool-cases, inl, inr, codes,
}
use qdrant_operator.Api.Spec.{TlsSpec}
use qdrant_operator.Api.Cluster.{QdrantCluster}
use qdrant_operator.Cluster.Status.{tls_enabled}
use qdrant_operator.Cluster.Endpoint.{
  cluster_scheme, client_base_url, peer_base_url, Connection, default_transport, trusting,
  Certificates, with_ca, with_tls, read_ca_cert, new_cluster_client,
}

abbrev pub base_url_of : Connection → Text
base_url_of (default_transport url) = url
base_url_of (trusting url ca) = url

unfoldable pub has_prefix : Text → Text → Bool
has_prefix [] s = true
has_prefix (c ∷ p) [] = false
has_prefix (c ∷ p) (d ∷ s) = c == d && has_prefix p s

abbrev pub speaks_https : Connection → Bool
speaks_https conn = has_prefix (codes "https://") (base_url_of conn)

-- A certificate that is trusted is a PEM text that the secret holds.
pub data IsTrust (certs : Certificates) (qc : QdrantCluster) : Connection → Type 0 where
  system : {url : Text} → IsTrust certs qc (default_transport url)
  own_ca :
      {url ca : Text} {tls : TlsSpec}
      → tls_enabled qc ≡ true
      → qc.spec.config.tls ≡ some tls
      → read_ca_cert certs qc tls ≡ some ca
      → certs.is_pem ca ≡ true
      → IsTrust certs qc (trusting url ca)

scheme_https :
    (qc : QdrantCluster) (rest : Text)
    → has_prefix (codes "https://") (cluster_scheme qc ++ (codes "://" ++ rest)) ≡ tls_enabled qc
unfolding cluster_scheme has_prefix
scheme_https qc rest = elim (Bool-cases (tls_enabled qc)) [ inl e ↦ rw e refl | inr e ↦ rw e refl ]

module _ (certs : Certificates) (qc : QdrantCluster) where
  with_ca-base_url : (url : Text) (ca : Option Text) → base_url_of (with_ca certs url ca) ≡ url
  with_ca-base_url url none = refl
  with_ca-base_url url (some ca) = elim (Bool-cases (certs.is_pem ca)) [
    | inl e ↦ rw e refl
    | inr e ↦ rw e refl
  ]

  with_tls-base_url :
      (url : Text) (tls : Option TlsSpec) → base_url_of (with_tls certs qc url tls) ≡ url
  with_tls-base_url url none = refl
  with_tls-base_url url (some tls) = with_ca-base_url url (read_ca_cert certs qc tls)

  new_cluster_client-base_url : (url : Text) → base_url_of (new_cluster_client certs qc url) ≡ url
  unfolding new_cluster_client
  new_cluster_client-base_url url = elim (Bool-cases (tls_enabled qc)) [
    | inl e ↦ rw e (with_tls-base_url url qc.spec.config.tls)
    | inr e ↦ rw e refl
  ]

  ca-IsTrust :
      (url : Text) (tls : TlsSpec) (ca : Option Text)
      → tls_enabled qc ≡ true
      → qc.spec.config.tls ≡ some tls
      → read_ca_cert certs qc tls ≡ ca
      → IsTrust certs qc (with_ca certs url ca)
  ca-IsTrust url tls none on t r = system
  ca-IsTrust url tls (some ca) on t r = elim (Bool-cases (certs.is_pem ca)) [
    | inl e ↦ rw e (own_ca on t r e)
    | inr e ↦ rw e system
  ]

  tls-IsTrust :
      (url : Text) (tls : Option TlsSpec)
      → tls_enabled qc ≡ true
      → qc.spec.config.tls ≡ tls
      → IsTrust certs qc (with_tls certs qc url tls)
  tls-IsTrust url none on t = system
  tls-IsTrust url (some tls) on t = ca-IsTrust url tls (read_ca_cert certs qc tls) on t refl

  client-IsTrust : (url : Text) → IsTrust certs qc (new_cluster_client certs qc url)
  unfolding new_cluster_client
  client-IsTrust url = elim (Bool-cases (tls_enabled qc)) [
    | inl e ↦ rw e (tls-IsTrust url qc.spec.config.tls e refl)
    | inr e ↦ rw e system
  ]

  -- The operator's clients for a cluster and for one of its peers speak https exactly if TLS is in
  -- place, whatever becomes of the certificate, and trust a CA of their own only if it is the PEM
  -- certificate that the cluster's secret holds.
  pub new_cluster_client-IsTrust :
      (ordinal : ℕ)
      → let c = new_cluster_client certs qc (client_base_url qc) in
        let p = new_cluster_client certs qc (peer_base_url qc ordinal) in
        ((speaks_https c ≡ tls_enabled qc) × IsTrust certs qc c)
        × ((speaks_https p ≡ tls_enabled qc) × IsTrust certs qc p)
  unfolding client_base_url peer_base_url
  new_cluster_client-IsTrust ordinal = (
    (
      ap (has_prefix (codes "https://")) (new_cluster_client-base_url (client_base_url qc))
          ∙ scheme_https qc _,
      client-IsTrust (client_base_url qc),
    ),
    (
      ap (has_prefix (codes "https://")) (new_cluster_client-base_url (peer_base_url qc ordinal))
          ∙ scheme_https qc _,
      client-IsTrust (peer_base_url qc ordinal),
    ),
  )
