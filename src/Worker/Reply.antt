-- ===== src/Worker/Reply.antt =====
-- The `catch` clauses of `run_job` in gearbox/worker/Worker.cc: the reply for each exception.
use gearbox.Base.{ℕ, pos, [], Bytes, codes}
use gearbox.Errors.{Exception, http, json_error, soci_error, worker_stop, uri_error, std_exception}
use gearbox.Worker.Env.{Reply, JobResponse}

abbrev reply_of : Bytes → Bytes → ℕ → Reply
reply_of message status code = record {
  message = message;
  status = status;
  code = pos code;
  headers = [];
  content = [];
}

unfoldable pub error_reply : Exception → Reply
error_reply (http e) = reply_of e.what e.name e.code
error_reply (json_error what) = reply_of what (codes "BAD_REQUEST") 400
error_reply (soci_error what) = reply_of what (codes "INTERNAL_SERVER_ERROR") 500
error_reply worker_stop = reply_of (codes "Worker Stop") (codes "GONE") 410
error_reply (uri_error what) = reply_of what (codes "INTERNAL_SERVER_ERROR") 500
error_reply (std_exception what) = reply_of what (codes "INTERNAL_SERVER_ERROR") 500

-- the reply of a handler that returned
unfoldable pub ok_reply : JobResponse → Reply
ok_reply r = record {
  message = codes "OK";
  status = codes "OK";
  code = r.code;
  headers = [];
  content = [];
}
