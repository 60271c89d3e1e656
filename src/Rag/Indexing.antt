-- ===== src/Rag/Indexing.antt =====
-- backend/app/rag/indexing.py: which failures are retried, how long a retry waits, and what a
-- failure summary may say. An exception is its class and the part of it that the code reads.
pub mod Backoff
pub mod Sanitized
use rag_service.Prelude.{
  ℕ, zero, suc, ◌^◌, Text, codes, show_nat, Bool, true, false, ◌&&◌, ◌||◌, not, List, [], ◌∷◌, ◌++◌,
  take, any, leb, ◌==◌, if◌then◌else◌, min, ℤ, pos, negsuc, Option, none, some,
}

pub data Exception : Type 0 where
  -- httpx.HTTPStatusError, with the status code of its response
  http_status : ℕ → Exception
  -- httpx.TimeoutException, a subclass of httpx.TransportError, and the other transport errors
  http_timeout http_transport : Exception
  sqlalchemy_error : Exception
  -- FileNotFoundError and ConnectionError are subclasses of OSError
  file_not_found connection_error os_error : Exception
  -- ValueError and its subclasses, with `str(exc)`
  value_error : Text → Exception
  -- errors.NotFoundError, errors.RequestError and errors.ServerError, with their messages
  not_found_error request_error server_error : Text → Exception
  -- any other class, by its name, with `str(exc)`
  other_error : Text → Text → Exception

is_timeout : Exception → Bool
is_timeout http_timeout = true
is_timeout _ = false

is_transport : Exception → Bool
is_transport http_timeout = true
is_transport http_transport = true
is_transport _ = false

is_sqlalchemy : Exception → Bool
is_sqlalchemy sqlalchemy_error = true
is_sqlalchemy _ = false

is_file_not_found : Exception → Bool
is_file_not_found file_not_found = true
is_file_not_found _ = false

is_connection : Exception → Bool
is_connection connection_error = true
is_connection _ = false

is_os : Exception → Bool
is_os file_not_found = true
is_os connection_error = true
is_os os_error = true
is_os _ = false

status_of : Exception → Option ℕ
status_of (http_status n) = some n
status_of _ = none

message_of : Exception → Option Text
message_of (value_error m) = some m
message_of _ = none

-- `type(exc).__name__`
type_name : Exception → Text
type_name (http_status _) = codes "HTTPStatusError"
type_name http_timeout = codes "TimeoutException"
type_name http_transport = codes "TransportError"
type_name sqlalchemy_error = codes "SQLAlchemyError"
type_name file_not_found = codes "FileNotFoundError"
type_name connection_error = codes "ConnectionError"
type_name os_error = codes "OSError"
type_name (value_error _) = codes "ValueError"
type_name (not_found_error _) = codes "NotFoundError"
type_name (request_error _) = codes "RequestError"
type_name (server_error _) = codes "ServerError"
type_name (other_error name _) = name

-- `status_code in {401, 403, 408, 425, 429} or status_code >= 500`
unfoldable pub retryable_status : ℕ → Bool
retryable_status n = any (λ code. n == code) (401 ∷ 403 ∷ 408 ∷ 425 ∷ 429 ∷ []) || leb 500 n

unfoldable pub is_retryable_index_error : Exception → Bool
unfolding status_of is_timeout is_transport is_sqlalchemy is_os is_file_not_found retryable_status
is_retryable_index_error exc = elim (status_of exc) [
  | some status_code ↦ retryable_status status_code
  | none ↦
      if is_timeout exc || is_transport exc || is_sqlalchemy exc
      then true
      else is_os exc && not (is_file_not_found exc)
]

-- `none` is the ValueError of a negative count or of a limit below one.
unfoldable pub index_retry_countdown : ℤ → ℤ → Option ℕ
index_retry_countdown (negsuc _) max_seconds = none
index_retry_countdown (pos retries) (negsuc _) = none
index_retry_countdown (pos retries) (pos zero) = none
index_retry_countdown (pos retries) (pos (suc m)) = some (min (2 ^ retries) (suc m))

unfoldable pub starts_with : Text → Text → Bool
starts_with s [] = true
starts_with [] (c ∷ p) = false
starts_with (d ∷ s) (c ∷ p) = d == c && starts_with s p

abbrev pub safe_prefixes : List Text
safe_prefixes =
    codes "PDF "
    ∷ codes "不支持加密 PDF"
    ∷ codes "不支持的文件类型"
    ∷ codes "文档没有可索引正文"
    ∷ codes "Embedding 返回向量数量或维度不匹配"
    ∷ []

sanitize_value_error : Text → Text
sanitize_value_error message =
    if any (starts_with message) safe_prefixes then take 512 message else codes "文档内容无法索引"

unfoldable pub sanitize_index_error : Exception → Text
unfolding status_of is_timeout is_transport is_file_not_found message_of is_sqlalchemy is_os
    type_name sanitize_value_error
sanitize_index_error exc = elim (status_of exc) [
  | some status_code ↦ codes "模型服务请求失败（HTTP " ++ (show_nat status_code ++ codes "）")
  | none ↦
      if is_timeout exc
      then codes "模型服务请求超时"
      else if is_transport exc
      then codes "模型服务连接失败"
      else if is_file_not_found exc
      then codes "原始文档不存在"
      else (elim (message_of exc) [
        | some message ↦ sanitize_value_error message
        | none ↦
            if is_sqlalchemy exc
            then codes "索引数据库操作失败"
            else if is_os exc
            then codes "对象存储访问失败"
            else codes "文档索引失败（" ++ (type_name exc ++ codes "）")
      ])
]

unfoldable pub sanitize_dispatch_error : Exception → Text
unfolding is_connection is_os message_of type_name
sanitize_dispatch_error exc =
    if is_connection exc || is_os exc then codes "任务投递失败：消息中间件连接异常" else (elim (message_of exc) [
      | some message ↦ codes "任务投递失败：事件类型或载荷不受支持"
      | none ↦ codes "任务投递失败（" ++ (type_name exc ++ codes "）")
    ])
