-- ===== src/MlClient/Construct.antt =====
-- Which base URLs the two constructors accept.
use grounded_search.Prelude.{ℤ, pos, ◌≡◌, ◌↔◌, some, ◌<ℤ◌, ok, arith, Result-cases, inl, inr}
use grounded_search.Go.Str.{Str}
use grounded_search.Go.Strings.{trim_space}
use grounded_search.Go.Url.{Url, UrlPackage}
use grounded_search.Config.Accepts.{IsServiceUrl, without_slash, check_url, check_url_iff}
use grounded_search.MlClient.Defs.{
  Client, HttpDoer, Transport, standard, injected, new, new_with_http_client,
}

-- A client for a text: a service URL without its last slashes, and the transport.
pub record IsClientFor (urls : UrlPackage) (base_url : Str) (transport : Transport)
    (client : Client) : Type 0 where
  pub url : Url
  pub parsed : urls.parse (trim_space base_url) ≡ ok url
  pub service : IsServiceUrl url
  pub built : client ≡ record { base_url = without_slash url; http_client = transport }

module _ (urls : UrlPackage) (base_url : Str) where
  injected_of_url :
      (doer : HttpDoer) (client : Client) (u : Url)
      → urls.parse (trim_space base_url) ≡ ok u
      → new_with_http_client urls base_url (some doer) ≡ ok client
      → IsClientFor urls base_url (injected doer) client
  injected_of_url doer client u e h = record {
    url = u;
    parsed = e;
    service = (check_url_iff u).0 (unfold check_url new_with_http_client in ground arith);
    built = unfold check_url new_with_http_client in ground arith;
  }

  injected_sound :
      (doer : HttpDoer) (client : Client)
      → new_with_http_client urls base_url (some doer) ≡ ok client
      → IsClientFor urls base_url (injected doer) client
  injected_sound doer client h = elim (Result-cases (urls.parse (trim_space base_url))) [
    | inl (u, e) ↦ injected_of_url doer client u e h
    | inr (d, e) ↦ absurd (unfold new_with_http_client in ground arith)
  ]

  injected_complete :
      (doer : HttpDoer) (client : Client)
      → IsClientFor urls base_url (injected doer) client
      → new_with_http_client urls base_url (some doer) ≡ ok client
  unfolding new_with_http_client check_url
  injected_complete doer client c = ground (arith, (check_url_iff c.url).1 c.service)

  -- An injected HTTP client is used with exactly the base URLs that are service URLs once the white
  -- space around them is gone.
  pub new_with_http_client-eq-ok :
      (doer : HttpDoer) (client : Client)
      → (new_with_http_client urls base_url (some doer) ≡ ok client)
        ↔ IsClientFor urls base_url (injected doer) client
  new_with_http_client-eq-ok doer client =
      (injected_sound doer client, injected_complete doer client)

  standard_of_url :
      (timeout : ℤ) (client : Client) (u : Url)
      → urls.parse (trim_space base_url) ≡ ok u
      → new urls base_url timeout ≡ ok client
      → IsClientFor urls base_url (standard timeout) client
  standard_of_url timeout client u e h = record {
    url = u;
    parsed = e;
    service = (check_url_iff u).0 (unfold check_url new in ground arith);
    built = unfold check_url new in ground arith;
  }

  new_sound :
      (timeout : ℤ) (client : Client)
      → new urls base_url timeout ≡ ok client
      → (pos 0 <ℤ timeout) × IsClientFor urls base_url (standard timeout) client
  new_sound timeout client h = elim (Result-cases (urls.parse (trim_space base_url))) [
    | inl (u, e) ↦ (unfold new in ground arith, standard_of_url timeout client u e h)
    | inr (d, e) ↦ absurd (unfold new in ground arith)
  ]

  new_complete :
      (timeout : ℤ) (client : Client)
      → (pos 0 <ℤ timeout) × IsClientFor urls base_url (standard timeout) client
      → new urls base_url timeout ≡ ok client
  unfolding new check_url
  new_complete timeout client (positive, c) = ground (arith, (check_url_iff c.url).1 c.service)

  -- A client with a timeout is built exactly for a positive timeout and a service URL, which is kept
  -- without its last slashes.
  pub new-eq-ok :
      (timeout : ℤ) (client : Client)
      → (new urls base_url timeout ≡ ok client)
        ↔ ((pos 0 <ℤ timeout) × IsClientFor urls base_url (standard timeout) client)
  new-eq-ok timeout client = (new_sound timeout client, new_complete timeout client)
