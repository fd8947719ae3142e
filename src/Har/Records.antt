-- ===== src/Har/Records.antt =====
-- The records of internal/har/har.go, and those of internal/storage/queries.go that they stand for.
-- Times are in whole milliseconds, and a number may be negative in a file.
use api_x.Base.{Text, Option, List}
use api_x.Base.Int.{ℤ}
use api_x.Base.Maps.{Assoc}

module _ (Time : Type 0) where
  pub record RequestRecord : Type 0 where
    pub id : Text
    pub method : Text
    pub url : Text
    pub headers : Assoc Text
    pub body : Text
    pub timestamp : Time
    pub duration_ms : ℤ

pub record ResponseRecord : Type 0 where
  pub request_id : Text
  pub status_code : ℤ
  pub status_text : Text
  pub headers : Assoc Text
  pub body : Text

-- `ImportedTransaction`
pub record ImportedTransaction (Time : Type 0) : Type 0 where
  pub request : RequestRecord Time
  pub response : Option ResponseRecord

pub record HarKv : Type 0 where
  pub name : Text
  pub value : Text

pub record HarBody : Type 0 where
  pub mime_type : Text
  pub text : Text
  pub encoding : Text

pub record HarRequest : Type 0 where
  pub method : Text
  pub url : Text
  pub headers : List HarKv
  pub query_string : List HarKv
  pub post_data : Option HarBody

pub record HarResponse : Type 0 where
  pub status : ℤ
  pub status_text : Text
  pub headers : List HarKv
  pub content : HarBody
  pub redirect_url : Text

pub record HarEntry : Type 0 where
  pub started_date_time : Text
  pub time : ℤ
  pub request : HarRequest
  pub response : HarResponse
