-- ===== src/Host.antt =====
-- The libraries and services that the program calls, as interfaces over an environment `S`. None of
-- them is implemented here: a function of the program takes those that it uses as parameters.
use idsproject.Base.{Text, ℕ, ℤ, Bool, Option, List}

-- libvirt and libvirt-qemu. `Dom` is the type of domain handles, and `none` is a null pointer.
pub record Libvirt (S Dom : Type 0) : Type 0 where
  -- virDomainLookupByName
  pub lookup_by_name : Text → S → Option Dom × S
  -- virDomainFree
  pub domain_free : Dom → S → S
  -- virDomainQemuAgentCommand, with its timeout
  pub agent_command : Dom → Text → ℤ → S → Option Text × S

-- json-c: a document of type `J`, and what the program reads from it.
pub record JsonC (J : Type 0) : Type 0 where
  pub tokener_parse : Text → Option J
  -- json_object_object_get
  pub object_get : J → Text → Option J
  -- json_object_get_type, compared with json_type_int, json_type_object and json_type_string
  pub is_int : J → Bool
  pub is_object : J → Bool
  pub is_string : J → Bool
  pub get_int : J → ℤ
  pub get_string : J → Text

-- nlohmann::json. Where a member may throw, `none` is the exception.
pub record Nlohmann (J : Type 0) : Type 0 where
  pub parse : Text → Option J
  -- `stream >> j`, which leaves what stands behind the value
  pub read_stream : Text → Option J
  pub contains : J → Text → Bool
  -- `j["key"]` and `j[index]`
  pub at_key : J → Text → Option J
  pub at_index : J → ℕ → Option J
  pub is_array : J → Bool
  pub is_string : J → Bool
  pub is_number_integer : J → Bool
  -- the elements that a range-based `for` visits
  pub elements : J → List J
  -- `j.get<T>()`
  pub get_int : J → Option ℤ
  pub get_bool : J → Option Bool
  pub get_string : J → Option Text
  pub get_strings : J → Option (List Text)
  pub get_ints : J → Option (List ℤ)
  -- `j.value("key", default)`
  pub value_int : J → Text → ℤ → Option ℤ
  pub value_bool : J → Text → Bool → Option Bool
  pub value_string : J → Text → Text → Option Text

-- The EVP digest interface of OpenSSL. A test of a return value against 1 is a `Bool`.
pub record Evp (S Ctx : Type 0) : Type 0 where
  -- EVP_MD_CTX_new, EVP_MD_CTX_free
  pub ctx_new : S → Option Ctx × S
  pub ctx_free : Ctx → S → S
  -- EVP_DigestInit_ex with EVP_sha256, EVP_DigestUpdate
  pub digest_init : Ctx → S → Bool × S
  pub digest_update : Ctx → Text → S → Bool × S
  -- EVP_DigestFinal_ex: the digest's bytes
  pub digest_final : Ctx → S → Option Text × S

-- Files of the host, as `std::ifstream` and `std::ofstream` reach them.
pub record Disk (S : Type 0) : Type 0 where
  -- the whole contents, or `none` where the file does not open
  pub read : Text → S → Option Text
  -- open for writing, which empties the file; `false` where it does not open
  pub open_write : Text → S → Bool × S
  -- `<<` to the open stream of the file
  pub write : Text → Text → S → S

-- More of libvirt: the life cycle of a machine. A failing call of virDomainGetState is `none`.
pub record Domains (S Dom : Type 0) : Type 0 where
  pub virt : Libvirt S Dom
  -- virDomainGetXMLDesc, and the release of its text
  pub get_xml_desc : Dom → S → Option Text × S
  pub free_text : Text → S → S
  pub get_state : Dom → S → Option ℤ × S
  -- virDomainShutdown, virDomainCreate
  pub shutdown : Dom → S → ℤ × S
  pub create : Dom → S → ℤ × S
  -- virDomainDefineXML, `false` for a null pointer
  pub define_xml : Text → S → Bool × S
  pub sleep_ms : ℕ → S → S

-- tinyxml2, with elements as values: a change of an element in place is the new value put back.
pub record Tinyxml (Doc El : Type 0) : Type 0 where
  pub parse : Text → Doc
  -- doc.FirstChildElement and e->FirstChildElement with a name
  pub top_element : Doc → Text → Option El
  pub first_child_element : El → Text → Option El
  -- the elements that FirstChildElement() and NextSiblingElement() visit
  pub children : El → List El
  -- the element with these children: what InsertEndChild and DeleteChild leave behind
  pub with_children : List El → El → El
  pub name : El → Text
  pub attribute : Text → El → Option Text
  pub set_attribute : Text → Text → El → El
  pub new_element : Text → El
  -- the document with its `domain/devices` in the state of this value
  pub put_devices : El → Doc → Doc
  pub print : Doc → Text

-- The host's shell and folders. `create_directories` is `none` where it throws filesystem_error.
pub record Shell (S : Type 0) : Type 0 where
  pub system : Text → S → ℤ × S
  pub exists : Text → S → Bool
  pub is_directory : Text → S → Bool
  pub create_directories : Text → S → Option Bool × S
  pub now : S → ℕ × S

-- SQLite. A comparison of a return value with SQLITE_OK is a `Bool`; `step` gives the value itself.
pub record Sqlite (S Db Stmt : Type 0) : Type 0 where
  -- sqlite3_open gives a handle also where it fails
  pub open_db : Text → S → (Bool × Db) × S
  pub close : Db → S → S
  pub exec : Db → Text → S → Bool × S
  -- sqlite3_prepare_v2
  pub prepare : Db → Text → S → Option Stmt × S
  pub bind_text : Stmt → ℕ → Text → S → S
  pub bind_int64 : Stmt → ℕ → ℤ → S → S
  pub step : Stmt → S → ℤ × S
  pub column_text : Stmt → ℕ → S → Text
  pub column_int64 : Stmt → ℕ → S → ℤ
  pub finalize : Stmt → S → S

-- What the program sets on a libcurl handle before the request.
pub record Request : Type 0 where
  pub url : Text
  pub post_fields : Option Text
  pub headers : List Text

-- libcurl: `perform` tells whether the code was CURLE_OK, and the chunks that the callback got.
pub record Curl (S H : Type 0) : Type 0 where
  pub easy_init : S → Option H × S
  pub easy_escape : H → Text → S → Option Text × S
  pub easy_perform : H → Request → S → (Bool × List Text) × S
  pub easy_cleanup : H → S → S

-- nlohmann::json as it is built by the program; `dump` may throw.
pub record JsonBuild (J : Type 0) : Type 0 where
  pub object : List (Text × J) → J
  pub text : Text → J
  pub int : ℤ → J
  pub dump : J → Option Text

-- OpenSSL's one-shot SHA-256, and its base64 filter: `none` where BIO_read fails.
pub record Crypto : Type 0 where
  pub sha256 : Text → Text
  pub decode : Text → Option Text

-- std::filesystem::current_path and remove, which throws where it cannot remove a file.
pub record Folders (S : Type 0) : Type 0 where
  pub current_path : S → Text
  pub remove : Text → S → Option Bool × S

-- The `double` of the program, as it reads and compares it: `istream >> x`, and `a > b`.
pub record Doubles (F : Type 0) : Type 0 where
  pub read : Text → Option (F × Text)
  pub gt : F → F → Bool

-- libvirt's connection: `none` for a null pointer and for a negative number of domains.
pub record Connections (S Conn Dom : Type 0) : Type 0 where
  pub connect_open : Text → S → Option Conn × S
  pub connect_close : Conn → S → S
  -- virConnectListAllDomains without an array: a number
  pub count_all : Conn → S → ℤ × S
  -- virConnectListDomains with room for so many
  pub list_domains : Conn → ℤ → S → Option (List ℤ) × S
  pub lookup_by_id : Conn → ℤ → S → Option Dom × S
  pub get_name : Dom → S → Option Text
  pub release : Dom → S → S

-- EVP_DecodeBlock on a buffer that is large enough: the bytes, or `none` for a negative length.
pub record BlockDecoder : Type 0 where
  pub decode_block : Text → Option Text

-- Qt's sockets and documents. `fromJson` gives a document also where the bytes are none.
pub record QtNetwork (S Socket J : Type 0) : Type 0 where
  -- QTcpServer::listen on any address
  pub listen : ℕ → S → Bool × S
  -- a new socket on a descriptor
  pub new_socket : ℤ → S → Socket × S
  pub read_all : Socket → S → Text × S
  pub from_json : Text → J
  pub is_object : J → Bool
