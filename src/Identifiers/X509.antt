-- ===== src/Identifiers/X509.antt =====
-- What lacme/_identifiers.py uses of `cryptography.x509`, as parameters.
use lacme.Prelude.{Bool, Option, List, Str}
use lacme.Identifiers.Platform.{Platform}

module _ (py : Platform) where
  pub data GeneralName : Type 0 where
    dns_name : Str → GeneralName
    ip_address : py.Address → GeneralName
    -- an `IPAddress` that holds a network
    ip_network : GeneralName
    -- any other class
    other_name : GeneralName

  pub record X509 : Type 1 where
    pub Csr : Type 0
    pub Certificate : Type 0
    -- `load_der_x509_csr`; `none` for a ValueError
    pub load_der_x509_csr : Str → Option Csr
    pub is_signature_valid : Csr → Bool
    -- the subjectAltName extension, in order; `none` for ExtensionNotFound
    pub csr_sans : Csr → Option (List GeneralName)
    -- the values of the subject's COMMON_NAME attributes
    pub csr_common_names : Csr → List Str
    -- `load_pem_x509_certificates`; `none` for a TypeError or ValueError
    pub load_pem_x509_certificates : Str → Option (List Certificate)
    pub certificate_sans : Certificate → Option (List GeneralName)
