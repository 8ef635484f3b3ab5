-- ===== src/Config/Authority.antt =====
-- `config::config_to` of src/config.cpp for the server that intercepts TLS: the certificate of the
-- proxy is loaded, or made and saved. The file system is a parameter; a call that throws, and a
-- file that cannot be opened, give `none`.

pub mod Again
use hcpp.Common.{
  ℕ, zero, suc, Bool, true, false, ◌&&◌, ◌||◌, [], ◌++◌, Option, none, some, Bytes, length, take,
  drop, equal, ltb, if◌then◌else◌,
}
use hcpp.Certificate.{Openssl, SubjectIdentify}
use hcpp.Certificate.Issue.{Draws, make_ca}
use hcpp.Config.{replace_path}

pub record Files : Type 1 where
  pub Disk : Type 0
  pub exists : Bytes → Disk → Bool
  pub contents : Bytes → Disk → Option Bytes
  pub write : Bytes → Bytes → Disk → Option Disk
  pub create_directories : Bytes → Disk → Option Disk
  pub parent_path : Bytes → Bytes

-- The loop that reads 1024 bytes at a time: it stops after a read that gives fewer.
unfoldable pub append_all : ℕ → Bytes → Bytes → Bytes
append_all zero pem file = pem
append_all (suc fuel) pem file =
    let got = take 1024 file in
    let more = append_all fuel (pem ++ got) (drop 1024 file) in
    if ltb (length got) 1024 then pem ++ got else more

-- How the call ends: with its result, and what was given to the server.
pub data Ended (Disk : Type 0) : Type 0 where
  thrown : Ended Disk
  ended : Bool → Option SubjectIdentify → Disk → Ended Disk

module _ (F : Files) where
  open F use {Disk, exists, contents, write, create_directories, parent_path}

  unfoldable pub read_file : Bytes → Disk → Option Bytes
  read_file path f = elim (contents path f) [
    | none ↦ none
    | some file ↦ some (append_all (length file) [] file)
  ]

  unfoldable pub load_ca : Bytes → Bytes → Disk → Ended Disk
  load_ca pkey_path cert_path f = elim (read_file pkey_path f) [
    | none ↦ ended false none f
    | some pkey ↦ elim (read_file cert_path f) [
      | none ↦ ended false none f
      | some cert ↦ ended true (some (record { pkey_pem = pkey; cert_pem = cert })) f
    ]
  ]

  unfoldable pub save_ca : Bytes → Bytes → SubjectIdentify → Disk → Ended Disk
  save_ca pkey_path cert_path si f = elim (create_directories (parent_path pkey_path) f) [
    | none ↦ thrown
    | some f1 ↦ elim (write pkey_path si.pkey_pem f1) [
      | none ↦ ended false none f1
      | some f2 ↦ elim (create_directories (parent_path cert_path) f2) [
        | none ↦ thrown
        | some f3 ↦ elim (write cert_path si.cert_pem f3) [
          | none ↦ ended false none f3
          | some f4 ↦ ended true (some si) f4
        ]
      ]
    ]
  ]

  unfoldable pub ca_config_to : Openssl → Draws → Option Bytes → Bytes → Bytes → Disk → Ended Disk
  ca_config_to o d home ca_pkey_path ca_cert_path f =
      let pkey_path = replace_path home ca_pkey_path in
      let cert_path = replace_path home ca_cert_path in
      if equal pkey_path [] || equal cert_path []
      then ended false none f
      else if exists pkey_path f && exists cert_path f
      then load_ca pkey_path cert_path f
      else save_ca pkey_path cert_path (make_ca o d) f
