-- ===== src/Lib.antt =====
-- oracle_fdw is a PostgreSQL foreign data wrapper for Oracle. oracle_fdw.c plans and runs the queries
-- inside PostgreSQL, oracle_utils.c talks to Oracle through OCI, jni_backend/oracle_utils_jni.c does
-- the same through JDBC, and oracle_gis.c converts between the two databases' geometries.
--
-- Modelled are oracle_gis.c, the conversion of geometries in both directions; the transactions,
-- savepoints and statements of oracle_utils.c with the callbacks of oracle_fdw.c that use them; the
-- options, the literals and the statements that change rows of oracle_fdw.c; and parts of
-- jni_backend/oracle_utils_jni.c, the texts that it exchanges with Java and its savepoints:
--   Memory.antt        unsignedFill, doubleFill, reading and moving a byte pointer
--   Oci.antt           the OCI calls (a parameter) and the documented laws of those that succeed
--   Gis/Geometry.antt  ora_geometry, ewkbType, ewkbIsMeasured, sdoDimension, the number macros
--   Gis/Srid.antt      initSRIDMap, epsgFromOracle, epsgToOracle (Gis/Srid/Scan.antt: sscanf "%lu %lu")
--   Gis/Decode.antt    oracleEWKBToGeom, setSridAndFlags, setType; Gis/Decode/Shapes.antt: setPoint
--                      to setMultiPolygon, appendElemInfo, appendCoord
--   Gis/Unpack.antt    numCoord, coord, numElemInfo, elemInfo, unpack
--   Gis/Encode.antt    oracleGetEWKBLen, oracleFillEWKB, ewkbHeaderFill, ewkbSrid;
--                      Gis/Encode/Shapes.antt: the Len and Fill functions of each type
--   Gis/Ewkb.antt      the two formats described on their own, as a data type of shapes
--   Gis/Store.antt, Gis/Convert  lemmas and theorems on the conversion
--   Jni/Hex.antt       hexDigitValue, decodeHex
--   Jni/Identifier.antt  copyOracleIdentifier
--   Jni/Fields.antt    splitFields
--   Jni/Types.antt     uppercaseAscii, startsWith, oraTypeFromNames, valSizeForType
--   Jni/Savepoints.antt  setSavepoints, oracleEndSubtransaction, over the calls of Java (a parameter)
--   Jni/Sessions.antt  registerSession, findSession, unregisterSession
--   Utils/Statements.antt  registerStmt, freeStmt, and sending a statement through OCI
--   Utils/Transactions.antt  oracleSetSavepoint, oracleEndSubtransaction, oracleEndTransaction
--   Utils/Callbacks.antt  transactionCallback, subtransactionCallback (oracle_fdw.c)
--   Utils/Nesting      nested transactions of PostgreSQL, and savepoints of Oracle, on their own
--   Utils/Cache.antt   closeSession, disconnectServer, removeEnvironment, oracleCloseConnections
--   Utils/Backends.antt  the savepoints of the OCI and of the JNI backend compared
--   Text.antt          the formats "%d" and "%0<n>d" of the texts that oracle_fdw.c builds
--   Fdw/Literals.antt  deparseDate, deparseTimestamp, deparseInterval, interval2itm, convertUUID
--   Fdw/Options.antt   valid_options, oracle_fdw_validator; Fdw/Options/Values.antt: getBoolVal,
--                      getIsolationLevel and the tests on values; Numbers.antt: strtol, strtoul
--                      Fdw/Options/Documented.antt: the options as the README describes them
--   Fdw/Columns.antt   checkDataType, addParam, appendAsType
--   Fdw/Modify.antt    getColumnData, oracleAddForeignUpdateTargets, buildInsertQuery;
--                      Fdw/Modify/Plan.antt: buildUpdateQuery, appendReturningClause, hasTrigger,
--                      oraclePlanForeignModify
--   Tests              concrete inputs, with a small implementation of OCI
--
-- A call that raises a PostgreSQL error is the result `err`; a null dereference, an access out of
-- bounds, a division by zero and a signed overflow are `fault`. In Utils, where the state that an error leaves behind
-- matters, a function ends with that state and, if it does not return, with the report. unsigned has 32
-- bits, long and size_t 64, with the wrap-around written out; a double is its bit pattern. Loops recurse
-- on the input or on the number of rounds that the code computes before, so that no fuel is needed,
-- but for the decimal digits of a number, at most 20 of them for 64 bits, and for closing the
-- statements of a connection and the cache, one round for each entry. srid_map, a static variable, is
-- passed along; the file system's answers are the data type SridFile. OCI, Java, strtod, and what PostgreSQL knows
-- of a table and a statement, are arguments. PostgreSQL's types are the ones that the code tells apart.
--
-- Not modelled: the releasing of memory (oracleGeometryFree), allocation failures, the texts of
-- error messages, warnings and debug output, and the planner, the deparser of expressions and
-- the executor parts of oracle_fdw.c, the queries and LOBs of oracle_utils.c and the filling of its
-- cache, the statements of the JNI backend, its Java side and the build support.
pub mod Base
pub mod Result
pub mod Memory
pub mod Text
pub mod Oci
pub mod Gis
pub mod Jni
pub mod Utils
pub mod Fdw
pub mod Tests
