-- ===== src/Lib.antt =====
-- cx_Oracle: the core of the extension module that connects Python to Oracle Database through
-- ODPI-C.
--
-- The program has type tables (src/cxoTransform.c, src/cxoDbType.c, src/cxoApiType.c,
-- src/cxoModule.c), which say for a column, a Python value or a Python type by which transform it
-- is converted; the conversions themselves (src/cxoTransform.c, src/cxoBuffer.c); JSON values,
-- which are trees of such conversions (src/cxoJsonBuffer.c); cursors (src/cxoCursor.c), which
-- prepare a statement, bind variables to it, execute it, define fetch variables for its columns and
-- fetch rows from a buffer that ODPI-C fills; and variables (src/cxoVar.c), which hold the values
-- of a bind or of a column for several rows. Objects and object types (src/cxoObject.c,
-- src/cxoObjectType.c, src/cxoObjectAttr.c), queues with their messages (src/cxoQueue.c,
-- src/cxoMsgProps.c) and LOBs (src/cxoLob.c) use the same conversions for the values of the
-- database that have methods of their own. All of these work on a connection (src/cxoConnection.c),
-- which a program creates or acquires from a session pool (src/cxoSessionPool.c) and closes.
--
-- Files:
--   Prelude, Error, Action - lists over the native numbers, integers, errors as values, and
--     actions that change a state and may fail; the state of an action stays as it is after an
--     error.
--   Types - Types.Numbers has cxoTransformNum, the types of ODPI-C, the database and DB API types;
--     Types.Tables has cxoAllTransforms, cxoTransform_getTypeInfo,
--     cxoTransform_getNumFromDataTypeInfo, cxoDbType_fromDataTypeInfo, cxoDbType_fromTransformNum
--     and the tables of src/cxoModule.c; Types.Agreement has what these tables say of each other.
--   Py - the Python values that the code tells apart, and the checks of dates and timedeltas.
--   Call - cxoCursor_callCalculateSize, cxoCursor_callBuildStatement and cxoCursor_call.
--   Transform - Transform.Selection has cxoTransform_getNumFromValue and what it calls;
--     Transform.FromPython has cxoTransform_fromPython, Transform.ToPython has
--     cxoTransform_toPython, Transform.Values has the unions and cxoBuffer_fromObject.
--   Json - Json.Populate has cxoJsonBuffer_populateNode, Json.Read has
--     cxoTransform_toPythonFromJson.
--   Object - Object.State has the fields of struct cxoObject, cxoObjectType and cxoObjectAttr and the
--     calls of ODPI-C; Object.Values has cxoObject_convertFromPython and
--     cxoObject_convertToPython, Object.Methods the methods of src/cxoObject.c, Object.Types those
--     of src/cxoObjectType.c and src/cxoObjectAttr.c. Object.Walk, Object.Listing, Object.Ends and
--     Object.Extend are about collections, Object.Supported and Object.Made about types.
--   Queue - Queue.Deq has cxoQueue_deqHelper and what calls it, Queue.Enq cxoQueue_enqHelper and
--     what calls it, both on the array that messages and their handles share; Queue.Handles and
--     Queue.Owned follow the handles that are dequeued, Queue.Transfer describes enqueuing without
--     the array.
--   Lob - Lob.Methods has the methods of src/cxoLob.c, Lob.Reading what a read returns.
--   Connection - Connection.State has the fields of struct cxoConnection and cxoSessionPool and the
--     calls of ODPI-C; Connection.Methods has the methods of src/cxoConnection.c,
--     Connection.Credentials, Connection.Params and Connection.Create have cxoConnection_init and
--     cxoSessionPool_acquire, Connection.Pool the rest of src/cxoSessionPool.c.
--     Connection.Operations lists what a program may call; Connection.Closed, Connection.Stays and
--     Connection.Lifecycle follow the handle through such a program, Connection.ConnectString is
--     about the text user/password@dsn.
--   Var - Var.State has the fields of struct cxoVar and the calls of ODPI-C; Var.Values has
--     cxoVar_new, cxoVar_setValue, cxoVar_getValue and what they call, Var.Create has
--     cxoVar_newByValue, cxoVar_newByType and cxoVar_bind. Var.Made is about the variable that is
--     made for a list; Var.Copy, Var.Grow and Var.Bounds are about the elements of a variable.
--   Cursor - Cursor.State has the fields of struct cxoCursor and the calls that leave the file;
--     Cursor.Define has cxoCursor_performDefine and cxoCursor_verifyFetch, Cursor.Fetching has
--     cxoCursor_fetchRow, cxoCursor_createRow, cxoCursor_multiFetch and the methods on them,
--     cxoCursor_scroll and cxoCursor_close; Cursor.Bind has cxoCursor_setBindVariables and
--     cxoCursor_performBind; Cursor.Execute has cxoCursor_internalPrepare, cxoCursor_execute and
--     cxoCursor_executeMany; Cursor.Description has cxoCursor_getDescription, Cursor.Calls has
--     cxoCursor_callProc and cxoCursor_callFunc, Cursor.Sizes has cxoCursor_setInputSizes.
--     Cursor.Stream states what a cursor promises: the rows of a query,
--     each once and in order; Cursor.Rows, Cursor.Step, Cursor.Delivery, Cursor.Methods and
--     Cursor.Single compare the code with it. Cursor.Fills, Cursor.Slots, Cursor.Performed,
--     Cursor.Deferred, Cursor.Prepare and Cursor.RefCursor are about what binding, preparing and a
--     failed define leave behind. Cursor.Keeps, Cursor.Preparing and Cursor.Executed say which actions
--     leave the bind variables alone, Cursor.InputSizes how long those of setinputsizes are kept;
--     Cursor.Reading and Cursor.Returned are about what callproc returns, Cursor.JsonColumn about
--     a column that is defined but not described.
--
-- What is outside: ODPI-C, the Python runtime, type handlers and row factories are parameters
-- (Transform.Host.Runtime, Var.State.Dpi, Var.Create.Binder, Cursor.State.Driver,
-- Cursor.Bind.Variables, Cursor.Execute.Executor, Cursor.Calls.Caller, Object.State.ObjectApi,
-- Object.Types.TypeApi, Queue.State.QueueApi, Lob.Methods.LobApi, Connection.State.ConnApi,
-- Connection.Create.CreateApi, Connection.Pool.PoolApi). The laws that a theorem needs of them are
-- named: Cursor.Stream.Source for the fetches of ODPI-C, Var.Copy.Writes for its variables,
-- Json.Back.Decodes for the encodings, Object.Walk.Shows, Object.Extend.Collection and
-- Object.Ends.Advances for collections, Lob.Reading.Store for LOBs, Connection.Closed.RefusesNull
-- for connections. A call of ODPI-C that fails has not written through its pointers.
--
-- Bounds and fuel: numbers are exact; where the code casts to uint32_t or uint64_t the remainder is
-- written out. The bits of a C long are a parameter. The loop of fetchall has no limit, so
-- cxoCursor_multiFetch takes a number of rounds for that case; more rounds than rows that are left are enough. The loops of aslist and asdict take
-- a number of rounds too: one more than there are elements is enough, and 2 ^ 32 + 1 always are. An
-- object type is made to a given depth of nested types. All other loops run over lists.
--
-- Not modelled: reference counts and the freeing of memory, threads, subscriptions, SODA, the
-- creation of session pools, the options and properties of messages, text made for display. The
-- datetimes of the model have no time zone: the code drops one without an error. The cursor does not use the model of variables yet: the operations of src/cxoVar.c are parameters of
-- it.
pub mod Prelude
pub mod Error
pub mod Types
pub mod Py
pub mod Object
pub mod Queue
pub mod Lob
pub mod Connection
pub mod Call
pub mod Transform
pub mod Json
pub mod Action
pub mod Var
pub mod Cursor
